-- ===== src/Rabbit/Walk.antt =====
-- The walk of find along the short keys of a hash, over the cells.
use onvakv.Base.{
  ℕ, zero, suc, ◌<◌, Bool, true, ◌&&◌, Option, none, some, List, [], ◌∷◌, ◌++◌, All, ◌≡◌, refl, ap,
  subst, ◌∙◌, arith, if◌then◌else◌, ◌==◌,
}
use onvakv.ByteSlices.{bytes_eq}
use onvakv.Types.{Bytes}
use onvakv.Store.Cache.{Value, Serializable, BTree}
use onvakv.Store.Layers.{RootStore}
use onvakv.Rabbit.Cached.{CachedValue}
use onvakv.Rabbit.Multi.{SimpleMultiStore}
use onvakv.Rabbit.Operations.{
  Status, not_found, empty_slot, exists, short_key, last_of, init_of, stop_at, Found, find_round,
  find_loop,
}
use onvakv.Rabbit.Cells.{Cell, is_some, cells, in_cache, IsReadable, Moved, Points}
use onvakv.Rabbit.Fetched.{get_cached_value-Fetched}

pub last_of-append : (ks : List Bytes) (k : Bytes) → last_of (ks ++ k ∷ []) ≡ some k
unfolding last_of
last_of-append [] k = refl
last_of-append (j ∷ []) k = refl
last_of-append (j ∷ i ∷ ks) k = last_of-append (i ∷ ks) k

pub init_of-append : (ks : List Bytes) (k : Bytes) → init_of (ks ++ k ∷ []) ≡ ks
unfolding init_of
init_of-append [] k = refl
init_of-append (j ∷ []) k = refl
init_of-append (j ∷ i ∷ ks) k = ap (λ t. j ∷ t) (init_of-append (i ∷ ks) k)

-- stop_at by the cell.
abbrev pub stop_cell : {O : Type 0} → Bytes → Bool → Option (Cell O) → Option Status
stop_cell key early_exit none = some not_found
stop_cell key early_exit (some c) =
    if bytes_eq c.key key
    then some (if c.is_empty then empty_slot else exists)
    else if early_exit && c.passby_num == 0
    then some not_found
    else none

-- Two moves make one.
module _ (S : Serializable) (B : BTree (Value S.Obj)) (R : RootStore S) where
  pub Moved-trans :
      {s s' s'' : SimpleMultiStore S B R} (g f : Bytes → Option (Cell S.Obj))
      → Moved S B R s g s'
      → Moved S B R s' f s''
      → Moved S B R s f s''
  Moved-trans g f m n = record {
    readable = n.readable;
    viewed = n.viewed;
    cached = λ j e. n.cached j (m.cached j e);
  }

  pub Moved-same :
      {s s' : SimpleMultiStore S B R} (f g : Bytes → Option (Cell S.Obj))
      → Moved S B R s f s'
      → ((j : Bytes) → f j ≡ g j)
      → Moved S B R s g s'
  Moved-same f g m e = record {
    readable = m.readable;
    viewed = λ j. m.viewed j ∙ e j;
    cached = m.cached;
  }

module _ (sha256 : Bytes → Bytes) where
  -- The short key of a depth, and those in front of it.
  unfoldable pub slot : ℕ → Bytes → Bytes
  slot zero h = short_key h
  slot (suc d) h = slot d (sha256 h)

  unfoldable pub passed : ℕ → Bytes → List Bytes
  passed zero h = []
  passed (suc d) h = short_key h ∷ passed d (sha256 h)

  -- find ends at a depth with a status, and not before.
  unfoldable pub Walk :
      {O : Type 0} → (Bytes → Option (Cell O)) → Bytes → Bool → ℕ → Bytes → Status → Type 0
  Walk f key early_exit zero h st = stop_cell key early_exit (f (short_key h)) ≡ some st
  Walk f key early_exit (suc d) h st =
      (stop_cell key early_exit (f (short_key h)) ≡ none) × Walk f key early_exit d (sha256 h) st

  Walk-same :
      {O : Type 0} (f g : Bytes → Option (Cell O)) (key : Bytes) (early_exit : Bool) (d : ℕ)
      (h : Bytes) (st : Status)
      → ((j : Bytes) → g j ≡ f j)
      → Walk f key early_exit d h st
      → Walk g key early_exit d h st
  unfolding Walk
  Walk-same f g key early_exit zero h st e w = rw (e (short_key h)) w
  Walk-same f g key early_exit (suc d) h st e w =
      (rw (e (short_key h)) w.0, Walk-same f g key early_exit d (sha256 h) st e w.1)

  module _ (S : Serializable) (B : BTree (Value S.Obj)) (R : RootStore S) where
    stop_at-cell :
        (key : Bytes) (early_exit : Bool) (cv : Option (CachedValue S.Obj))
        (c : Option (Cell S.Obj))
        → Points S B R cv c
        → stop_at sha256 S B R key early_exit cv ≡ stop_cell key early_exit c
    unfolding stop_at
    stop_at-cell key early_exit none c p = rw p refl
    stop_at-cell key early_exit (some cv) c p = rw p.0 refl

    -- What find gives where it ends at a depth.
    pub record Located (n : ℕ) (s : SimpleMultiStore S B R) (key : Bytes) (early_exit : Bool)
        (d : ℕ) (h : Bytes) (st : Status) : Type 0 where
      pub found : Found sha256 S B R
      pub done : find_loop sha256 S B R n s key early_exit h ≡ some found
      pub status : found.status ≡ st
      pub path : found.path ≡ passed d h ++ slot d h ∷ []
      pub points : Points S B R found.cv (cells S B R s (slot d h))
      pub loaded : All (λ k. in_cache S B R found.store k ≡ true) (passed d h)
      pub last : is_some S found.cv ≡ true → in_cache S B R found.store (slot d h) ≡ true
      pub moved : Moved S B R s (cells S B R s) found.store

    -- A walk that ends within the rounds is what find does.
    pub Walk-Located :
        (n : ℕ) (s : SimpleMultiStore S B R) (key : Bytes) (early_exit : Bool) (d : ℕ) (h : Bytes)
        (st : Status)
        → IsReadable S B R s
        → d < n
        → Walk (cells S B R s) key early_exit d h st
        → Located n s key early_exit d h st
    unfolding Walk find_loop find_round passed slot
    Walk-Located zero s key early_exit d h st r l w = absurd (omega (arith, l))
    Walk-Located (suc n) s key early_exit zero h st r l w =
        (let g = get_cached_value-Fetched S B R s (short_key h) r in
          let stop = stop_at-cell key early_exit g.cv (cells S B R s (short_key h)) g.points ∙ w in
          record {
            found = record { store = g.store; cv = g.cv; path = short_key h ∷ []; status = st };
            done = rw (g.done, stop) refl;
            status = refl;
            path = refl;
            points = g.points;
            loaded = tt;
            last = g.loaded;
            moved = g.moved;
          })
    Walk-Located (suc n) s key early_exit (suc d) h st r l w =
        (let g = get_cached_value-Fetched S B R s (short_key h) r in
          let go = stop_at-cell key early_exit g.cv (cells S B R s (short_key h)) g.points ∙ w.0 in
          let q =
            Walk-Located n g.store key early_exit d (sha256 h) st g.moved.readable
              (omega (arith, l))
              (Walk-same (cells S B R s) (cells S B R g.store) key early_exit d (sha256 h) st
                g.moved.viewed w.1) in
          record {
            found = record q.found { path = short_key h ∷ q.found.path };
            done = rw (g.done, go, q.done) refl;
            status = q.status;
            path = ap (λ t. short_key h ∷ t) q.path;
            points = subst (Points S B R q.found.cv) (g.moved.viewed (slot d (sha256 h))) q.points;
            loaded = (q.moved.cached (short_key h) (g.loaded (goes_on g.cv go)), q.loaded);
            last = q.last;
            moved =
                Moved-trans S B R (cells S B R s) (cells S B R s) g.moved
                  (Moved-same S B R (cells S B R g.store) (cells S B R s) q.moved g.moved.viewed);
          })
      where
        goes_on :
            (cv : Option (CachedValue S.Obj))
            → stop_at sha256 S B R key early_exit cv ≡ none
            → is_some S cv ≡ true
        goes_on none e = unfold stop_at in cc
        goes_on (some cv) e = refl
