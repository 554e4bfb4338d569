-- ===== src/BlockGate/Window.antt =====
-- The cache of rpcutils/blockgate.go against what it is for: the last blocks that were stored.
use mathlib.Core.List.{map-append}
use hdfdata.Base.{
  ℕ, zero, suc, ◌-◌, ◌≡◌, ◌≤◌, ◌<◌, refl, sym, ◌∙◌, ap, true, List, [], ◌∷◌, ◌++◌, map, arith, ℤ,
  negsuc, eqb_ℤ, eqb_ℤ_iff, ltb, ◌==◌, ==_iff, if◌then◌else◌, length, drop, length-append,
  length-drop,
}
use hdfdata.BlockGate.Maps.{set, has, Tracks, Tracks-set, Tracks-unset}
use hdfdata.BlockGate.{Hash, HeightHashPair, BlockGate, hash_in_queue, height_in_queue, pop_oldest}

module _ {A : Type 0} where
  -- The last `n` elements.
  abbrev pub last_n : ℕ → List A → List A
  last_n n xs = drop (length xs - n) xs

  drop-append :
      (n : ℕ) (xs : List A) (x : A) → n ≤ length xs → drop n (xs ++ x ∷ []) ≡ drop n xs ++ x ∷ []
  drop-append zero xs x h = refl
  drop-append (suc n) [] x h = absurd (omega arith)
  drop-append (suc n) (y ∷ xs) x h = drop-append n xs x (omega arith)

  drop-suc :
      (n : ℕ) (xs : List A) (x : A) (rest : List A) → drop n xs ≡ x ∷ rest → drop (suc n) xs ≡ rest
  drop-suc zero [] x rest e = absurd (ground arith)
  drop-suc zero (y ∷ xs) x rest e = ground arith
  drop-suc (suc n) [] x rest e = absurd (ground arith)
  drop-suc (suc n) (y ∷ xs) x rest e = drop-suc n xs x rest e

  pub length-last_n :
      (n : ℕ) (xs : List A) → length (last_n n xs) ≡ (if ltb n (length xs) then n else length xs)
  length-last_n n xs = ground (arith, length-drop (length xs - n) xs)

  -- The window has room for one more.
  pub last_n-append_short :
      (n : ℕ) (xs : List A) (x : A)
      → length xs < n
      → last_n n (xs ++ x ∷ []) ≡ last_n n xs ++ x ∷ []
  last_n-append_short n xs x h =
      let e : length (xs ++ x ∷ []) - n ≡ length xs - n =
        omega (arith, length-append xs (x ∷ [])) in
      rw e (drop-append (length xs - n) xs x (omega arith))

  -- The window is full, and its oldest element is `y`, if not the new one.
  pub last_n-append_full :
      (n : ℕ) (xs : List A) (x y : A) (rest : List A)
      → n ≤ length xs
      → last_n n xs ++ x ∷ [] ≡ y ∷ rest
      → last_n n (xs ++ x ∷ []) ≡ rest
  last_n-append_full n xs x y rest h e =
      let k : length (xs ++ x ∷ []) - n ≡ suc (length xs - n) =
        omega (arith, length-append xs (x ∷ [])) in
      rw k (
        drop-suc (length xs - n) (xs ++ x ∷ []) y rest
          (drop-append (length xs - n) xs x (omega arith) ∙ e))

  -- The window of a positive size ends with the last element.
  pub last_n-snoc :
      (n : ℕ) (xs : List A) (x : A)
      → 0 < n
      → (front : List A) × (last_n n (xs ++ x ∷ []) ≡ front ++ x ∷ [])
  last_n-snoc n xs x h = (
    drop (length (xs ++ x ∷ []) - n) xs,
    drop-append (length (xs ++ x ∷ []) - n) xs x (omega (arith, length-append xs (x ∷ []))),
  )

module _ {Block : Type 0} (block_height : Block → ℤ) (block_hash : Block → Hash) where
  abbrev pub pair_of : Block → HeightHashPair
  pair_of b = record { height = block_height b; hash = block_hash b }

  -- The height of the last block of a list, -1 for the empty list.
  abbrev pub last_height : List Block → ℤ
  last_height [] = negsuc 0
  last_height (b ∷ []) = block_height b
  last_height (b ∷ c ∷ bs) = last_height (c ∷ bs)

  -- The gate's queue and maps hold the blocks of `w`.
  pub record Holds (w : List Block) (g : BlockGate Block) : Type 0 where
    pub queue : g.expire_queue.q ≡ map pair_of w
    pub heights : Tracks eqb_ℤ block_height block_hash g.hash_at_height w
    pub blocks : Tracks ◌==◌ block_hash (λ b. b) g.block_with_hash w

  -- The gate after the blocks of `stored` were stored, oldest first: it holds the last of them, as
  -- many as its capacity allows, and its height is that of the last one.
  pub record Represents (stored : List Block) (g : BlockGate Block) : Type 0 where
    pub held : Holds (last_n g.expire_queue.cap stored) g
    pub best : g.height ≡ last_height stored

  hash_in_queue-has :
      (h : Hash) (w : List Block) → hash_in_queue (map pair_of w) h ≡ has ◌==◌ block_hash h w
  unfolding hash_in_queue
  hash_in_queue-has h [] = refl
  hash_in_queue-has h (b ∷ w) = ground (arith, hash_in_queue-has h w)

  height_in_queue-has :
      (h : ℤ) (w : List Block) → height_in_queue (map pair_of w) h ≡ has eqb_ℤ block_height h w
  unfolding height_in_queue
  height_in_queue-has h [] = refl
  height_in_queue-has h (b ∷ w) =
      ap (λ r. if eqb_ℤ (block_height b) h then true else r) (height_in_queue-has h w)

  pub last_height-append :
      (bs : List Block) (b : Block) → last_height (bs ++ b ∷ []) ≡ block_height b
  last_height-append [] b = refl
  last_height-append (c ∷ []) b = refl
  last_height-append (c ∷ d ∷ bs) b = last_height-append (d ∷ bs) b

  pub pop_oldest-Holds :
      (b : Block) (w : List Block) (g : BlockGate Block)
      → Holds (b ∷ w) g
      → Holds w (pop_oldest (pair_of b) (map pair_of w) g)
  unfolding pop_oldest
  pop_oldest-Holds b w g h = record {
    queue = refl;
    heights =
        rw (height_in_queue-has (block_height b) w)
          (Tracks-unset eqb_ℤ block_height block_hash eqb_ℤ_iff g.hash_at_height w b h.heights);
    blocks =
        rw (hash_in_queue-has (block_hash b) w)
          (Tracks-unset ◌==◌ block_hash (λ b. b) ==_iff g.block_with_hash w b h.blocks);
  }

  -- The gate with a block put into its maps and at the end of its queue.
  abbrev pub pushed : Block → BlockGate Block → BlockGate Block
  pushed b g = record g {
    height = block_height b;
    hash_at_height = set eqb_ℤ (block_height b) (block_hash b) g.hash_at_height;
    block_with_hash = set ◌==◌ (block_hash b) b g.block_with_hash;
    expire_queue = record { q = g.expire_queue.q ++ pair_of b ∷ []; cap = g.expire_queue.cap };
  }

  pub pushed-Holds :
      (b : Block) (w : List Block) (g : BlockGate Block)
      → Holds w g
      → Holds (w ++ b ∷ []) (pushed b g)
  pushed-Holds b w g h = record {
    queue = rw h.queue (sym (map-append pair_of w (b ∷ [])));
    heights = Tracks-set eqb_ℤ block_height block_hash g.hash_at_height w b h.heights;
    blocks = Tracks-set ◌==◌ block_hash (λ b. b) g.block_with_hash w b h.blocks;
  }
