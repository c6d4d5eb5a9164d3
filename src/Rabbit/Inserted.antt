-- ===== src/Rabbit/Inserted.antt =====
-- Set at a key that the store does not hold.
use onvakv.Base.{
  ℕ, suc, ◌*◌, ◌^◌, ◌<◌, true, false, Bool-cases, Option, none, some, some-injective, none-ne-some,
  List, ◌∷◌, length, ◌≡◌, inl, inr, refl, sym, ap, subst, ◌∙◌,
}
use onvakv.ByteSlices.{bytes_eq}
use onvakv.Types.{Bytes}
use onvakv.Store.Cache.{Value, Serializable, BTree}
use onvakv.Store.Layers.{RootStore}
use onvakv.Rabbit.Cached.{Held, CachedValue}
use onvakv.Rabbit.Multi.{SimpleMultiStore}
use onvakv.Rabbit.Operations.{Status, not_found, empty_slot, find, set_found, set_helper}
use onvakv.Rabbit.Cells.{Cell, cell_of, cells}
use onvakv.Rabbit.Walk.{stop_cell, slot}
use onvakv.Rabbit.Live.{Live, without, Absent, count}
use onvakv.Rabbit.Represents.{IsCounted}
use onvakv.Rabbit.Located.{Walk-end, Absent-empty}
use onvakv.Rabbit.Holds.{Holds, has_room, LocatedAbsent, find-Absent}
use onvakv.Rabbit.Writes.{set-Located, Located-path, count_bound, replace}
use onvakv.Rabbit.Filled.{filled}

module _ (sha256 : Bytes → Bytes) (S : Serializable) (B : BTree (Value S.Obj))
    (R : RootStore S) where
  -- A slot at which find for a Set ends, if it is taken, is an empty one of the key.
  overwritten :
      (key : Bytes) (c : Cell S.Obj) (st : Status)
      → stop_cell key false (some c) ≡ some st
      → (c.is_empty ≡ false → bytes_eq c.key key ≡ false)
      → (st ≡ empty_slot) × (bytes_eq c.key key ≡ true)
  overwritten key c st e f = elim (Bool-cases (bytes_eq c.key key)) [
    | inl b ↦ elim (Bool-cases c.is_empty) [
      | inl y ↦ (sym (some-injective empty_slot st (sym (rw (b, y) refl) ∙ e)), b)
      | inr n ↦ cc (b, f n)
    ]
    | inr b ↦ absurd (none-ne-some st (sym (rw b refl) ∙ e))
  ]

  -- Set at a key that is not on the list puts it there.
  set_at :
      (s : SimpleMultiStore S B R) (es : List (Live S.Obj)) (key : Bytes) (obj : Held S.Obj)
      → Holds sha256 S B R s es
      → Absent key es
      → 100 * suc (length es) < 2 ^ 64
      → (l : LocatedAbsent sha256 S B R s key false) (o : Option (Cell S.Obj))
      → cells S B R s (slot sha256 l.depth (sha256 key)) ≡ o
      → (s' : SimpleMultiStore S B R) × (set_helper sha256 S B R s key obj ≡ some s')
        × Holds sha256 S B R s'
            (record { key = key; depth = l.depth; obj = some obj } ∷ without key es)
  unfolding set_helper find set_found
  set_at s es key obj h a few l none e =
      (let path = Located-path sha256 S B R l.located in
        let fresh : CachedValue S.Obj = record {
          passby_num = 0;
          key = key;
          obj = some obj;
          is_empty = false;
          is_deleted = false;
          is_dirty = false;
        } in
        let st : l.status ≡ not_found = sym (
          some-injective not_found l.status (
            sym (ap (stop_cell key false) e)
            ∙ Walk-end sha256 (cells S B R s) key false l.depth (sha256 key) l.status l.walk)) in
        let k = slot sha256 l.depth (sha256 key) in
        let (s₁, done, m) = set-Located sha256 S B R l.located k fresh in
        let unpassed =
          subst (λ o. IsCounted sha256 k o (count sha256 k es) es) e (h.represents.slots k) in
        let f =
          filled sha256 S B R s es key obj h a few l (cell_of fresh) s₁ refl refl refl
            (sym unpassed) (λ x o. cc (e, o)) m in
        (f.0, rw (l.located.done, path.0, path.1, l.located.status, st, set_found, done) f.1, f.2))
  set_at s es key obj h a few l (some c) e =
      (let path = Located-path sha256 S B R l.located in
        let (st, own) =
          overwritten key c l.status
            (sym (ap (stop_cell key false) e)
              ∙ Walk-end sha256 (cells S B R s) key false l.depth (sha256 key) l.status l.walk)
            (Absent-empty sha256 (cells S B R s) es key (slot sha256 l.depth (sha256 key)) c
              h.represents a e) in
        let x =
          replace sha256 S B R l.located c e
            (λ cv. record cv { key = key; obj = some obj; is_empty = false })
            (λ t. some (record t { key = key; obj = some obj; is_empty = false }))
            (λ cv alive. rw alive refl) in
        let f =
          filled sha256 S B R s es key obj h a few l
            (record c { key = key; obj = some obj; is_empty = false }) x.after refl refl refl
            (count_bound sha256 S B R (cells S B R s) es (slot sha256 l.depth (sha256 key)) c
              h.represents e).0
            (λ y o. ap (λ z. bytes_eq z.key key) (some-injective y c (sym o ∙ e)) ∙ own) x.moved in
        (
          f.0,
          rw (l.located.done, path.0, path.1, l.located.status, st, set_found, x.got, x.done) f.1,
          f.2,
        ))

  pub set-Absent :
      (s : SimpleMultiStore S B R) (es : List (Live S.Obj)) (key : Bytes) (obj : Held S.Obj)
      → Holds sha256 S B R s es
      → Absent key es
      → has_room sha256 S B R s key ≡ true
      → 100 * suc (length es) < 2 ^ 64
      → (s' : SimpleMultiStore S B R) × (d : ℕ) × (set_helper sha256 S B R s key obj ≡ some s')
        × Holds sha256 S B R s' (record { key = key; depth = d; obj = some obj } ∷ without key es)
  set-Absent s es key obj h a room few =
      (let l = find-Absent sha256 S B R s es key false h a room in
        let (s', done, held) =
          set_at s es key obj h a few l (cells S B R s (slot sha256 l.depth (sha256 key))) refl in
        (s', l.depth, done, held))
