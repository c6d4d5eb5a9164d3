-- ===== src/Rabbit/Fetched.antt =====
-- The calls of SimpleMultiStore on what the short keys hold.
use onvakv.Base.{
  true, false, Bool-cases, Option, none, some, ◌≡◌, inl, inr, refl, sym, ◌∙◌, if◌then◌else◌,
}
use onvakv.ByteSlices.{bytes_eq, bytes_eq_sound, bytes_eq_refl}
use onvakv.Types.{Bytes}
use onvakv.Store.Cache.{Value, Serializable, lookup, BTree}
use onvakv.Store.Layers.{RootStore, trunk_get, trunk_prepare_for_update, trunk_prepare_for_deletion}
use onvakv.Store.Transaction.{trunk_get-root}
use onvakv.Rabbit.Cached.{CachedValue}
use onvakv.Rabbit.Multi.{
  SimpleMultiStore, status_of, cache_get_value, cache_set_value, load_cached_value, get_by_status,
  get_cached_value, must_hit, must_get_cached_value, set_cached_value,
}
use onvakv.Rabbit.Cells.{
  Cell, cell_of, kept_cell, lookup-put_entry, parse-is_deleted, seen, below, Parses, is_some, cells,
  in_cache, IsReadable, Moved, put-Moved, Points, Fetched, stays,
}

module _ (S : Serializable) where
  module _ (B : BTree (Value S.Obj)) (R : RootStore S) where
    Fetched-missed :
        (s : SimpleMultiStore S B R) (k : Bytes) (t : Option (Option Bytes))
        → IsReadable S B R s
        → lookup s.cache k ≡ none
        → trunk_get S B R s.trunk k ≡ t
        → Parses S t
        → Fetched S B R s k
    unfolding get_cached_value cache_get_value status_of get_by_status load_cached_value cells
    Fetched-missed s k none r e t p = absurd p
    Fetched-missed s k (some none) r e t p = record {
      store = s;
      cv = none;
      done = rw (e, t) refl;
      points = rw (e, t) refl;
      loaded = λ x. cc;
      moved = stays S B R s r;
    }
    Fetched-missed s k (some (some bz)) r e t p =
        (let alive = parse-is_deleted S bz p.0 p.1 in
          let m = put-Moved S B R s k p.0 s.trunk r r.idle (λ j. refl) (λ n. rw (t, p.1) refl) in
          let here : cells S B R s k ≡ some (cell_of p.0) = rw (e, t, p.1, alive) refl in
          record {
            store = record s { cache = cache_set_value S s.cache k (some p.0) };
            cv = some p.0;
            done = rw (e, t, p.1) refl;
            points = (here, alive);
            loaded = λ x.
                unfold cache_set_value in
                rw (lookup-put_entry s.cache k k (some p.0), bytes_eq_refl k) refl;
            moved = record {
              readable = m.readable;
              viewed = λ j. m.viewed j ∙ unchanged j p.0 here alive;
              cached = m.cached;
            };
          })
      where
        unchanged :
            (j : Bytes) (cv : CachedValue S.Obj)
            → cells S B R s k ≡ some (cell_of cv)
            → cv.is_deleted ≡ false
            → (if bytes_eq k j then kept_cell cv else cells S B R s j) ≡ cells S B R s j
        unchanged j cv here alive = elim (Bool-cases (bytes_eq k j)) [
          | inl b ↦ rw (b, alive, sym (bytes_eq_sound k j b)) (sym here)
          | inr b ↦ rw b refl
        ]

    Fetched-at :
        (s : SimpleMultiStore S B R) (k : Bytes) (o : Option (Option (CachedValue S.Obj)))
        → IsReadable S B R s
        → lookup s.cache k ≡ o
        → Fetched S B R s k
    unfolding get_cached_value cache_get_value status_of get_by_status cells
    Fetched-at s k none r e = Fetched-missed s k (trunk_get S B R s.trunk k) r e refl (r.parsed k)
    Fetched-at s k (some none) r e = absurd (r.pointers k e)
    Fetched-at s k (some (some v)) r e = elim (Bool-cases v.is_deleted) [
      | inl d ↦ record {
        store = s;
        cv = none;
        done = rw (e, status_of, d) refl;
        points = rw (e, d) refl;
        loaded = λ x. cc;
        moved = stays S B R s r;
      }
      | inr d ↦ record {
        store = s;
        cv = some v;
        done = rw (e, status_of, d) refl;
        points = (rw (e, d) refl, d);
        loaded = λ x. rw e refl;
        moved = stays S B R s r;
      }
    ]

    pub get_cached_value-Fetched :
        (s : SimpleMultiStore S B R) (k : Bytes) → IsReadable S B R s → Fetched S B R s k
    get_cached_value-Fetched s k r = Fetched-at s k (lookup s.cache k) r refl

    must_at :
        (s : SimpleMultiStore S B R) (k : Bytes) (c : Cell S.Obj)
        (o : Option (Option (CachedValue S.Obj)))
        → lookup s.cache k ≡ o
        → is_some S o ≡ true
        → seen S o (below S (trunk_get S B R s.trunk k)) ≡ some c
        → (cv : CachedValue S.Obj) × (must_get_cached_value S B R s k ≡ some cv)
          × Points S B R (some cv) (some c)
    unfolding must_get_cached_value cache_get_value status_of must_hit
    must_at s k c none e i h = cc
    must_at s k c (some none) e i h = cc
    must_at s k c (some (some v)) e i h = elim (Bool-cases v.is_deleted) [
      | inl d ↦ cc (d, h)
      | inr d ↦ (v, rw (e, status_of, d) refl, (sym h ∙ rw d refl, d))
    ]

    pub must_get_cached_value-eq :
        (s : SimpleMultiStore S B R) (k : Bytes) (c : Cell S.Obj)
        → in_cache S B R s k ≡ true
        → cells S B R s k ≡ some c
        → (cv : CachedValue S.Obj) × (must_get_cached_value S B R s k ≡ some cv)
          × Points S B R (some cv) (some c)
    unfolding cells
    must_get_cached_value-eq s k c i e = must_at s k c (lookup s.cache k) refl i e

    pub set_cached_value-Moved :
        (s : SimpleMultiStore S B R) (k : Bytes) (cv : CachedValue S.Obj)
        → IsReadable S B R s
        → (s' : SimpleMultiStore S B R) × (set_cached_value S B R s k cv ≡ some s')
          × Moved S B R s (λ j. if bytes_eq k j then kept_cell cv else cells S B R s j) s'
    unfolding set_cached_value trunk_prepare_for_update trunk_prepare_for_deletion
    set_cached_value-Moved s k cv r = elim (Bool-cases cv.is_deleted) [
      | inl d ↦ (
        record {
          cache = cache_set_value S s.cache k (some (record cv { is_dirty = true }));
          trunk = record s.trunk { root = R.prepare_for_deletion s.trunk.root k };
        },
        rw (set_cached_value, d, r.idle) refl,
        put-Moved S B R s k (record cv { is_dirty = true })
            (record s.trunk { root = R.prepare_for_deletion s.trunk.root k }) r r.idle
            (λ j.
              trunk_get-root S B R s.trunk (R.prepare_for_deletion s.trunk.root k) j
                (R.get-prepare_for_deletion s.trunk.root k j))
            (λ n. cc),
      )
      | inr d ↦ (
        record {
          cache = cache_set_value S s.cache k (some (record cv { is_dirty = true }));
          trunk = record s.trunk { root = R.prepare_for_update s.trunk.root k };
        },
        rw (set_cached_value, d, r.idle) refl,
        put-Moved S B R s k (record cv { is_dirty = true })
            (record s.trunk { root = R.prepare_for_update s.trunk.root k }) r r.idle
            (λ j.
              trunk_get-root S B R s.trunk (R.prepare_for_update s.trunk.root k) j
                (R.get-prepare_for_update s.trunk.root k j))
            (λ n. cc),
      )
    ]
