-- ===== src/Rabbit/Refined.antt =====
-- The writes of a rabbit store, and what each of them does to its keys.
use onvakv.Base.{
  ℕ, suc, ◌*◌, ◌^◌, ◌≤◌, ◌<◌, true, Bool-cases, Option, none, some, List, [], ◌∷◌, length, ◌≡◌, inl,
  inr, refl, sym, ap, subst, ◌∙◌, arith, if◌then◌else◌, ◌>>=◌,
}
use mathlib.Core.Path.{fun_ext}
use onvakv.ByteSlices.{bytes_eq}
use onvakv.Types.{Bytes}
use onvakv.Store.Cache.{Value, Serializable, BTree}
use onvakv.Store.Layers.{RootStore}
use onvakv.Rabbit.Cached.{Held, held_bytes}
use onvakv.Rabbit.Multi.{SimpleMultiStore}
use onvakv.Rabbit.Operations.{find, set_helper, rabbit_set, rabbit_set_obj, rabbit_delete}
use onvakv.Rabbit.Cells.{cells, Moved}
use onvakv.Rabbit.Live.{Live, without, Absent-cases, length-without, without-Absent}
use onvakv.Rabbit.Represents.{Represents}
use onvakv.Rabbit.Holds.{content, content-without, Holds, has_room, find-Absent}
use onvakv.Rabbit.Writes.{Located-path, set-Member}
use onvakv.Rabbit.Inserted.{set-Absent}
use onvakv.Rabbit.Deleted.{delete-Member}

pub data RabbitWrite (O : Type 0) : Type 0 where
  set_bytes : Bytes → Bytes → RabbitWrite O
  set_object : Bytes → O → RabbitWrite O
  delete_key : Bytes → RabbitWrite O

module _ (S : Serializable) where
  abbrev pub key_of : RabbitWrite S.Obj → Bytes
  key_of (set_bytes key bz) = key
  key_of (set_object key o) = key
  key_of (delete_key key) = key

  -- The writes on a map from keys to bytes, the first one first.
  unfoldable pub replay : List (RabbitWrite S.Obj) → (Bytes → Option Bytes) → Bytes → Option Bytes
  replay [] f = f
  replay (set_bytes key bz ∷ ws) f = replay ws (λ j. if bytes_eq key j then some bz else f j)
  replay (set_object key o ∷ ws) f =
      replay ws (λ j. if bytes_eq key j then some (S.to_bytes o) else f j)
  replay (delete_key key ∷ ws) f = replay ws (λ j. if bytes_eq key j then none else f j)

  -- The bytes of what a key holds, if its object is not lent out.
  abbrev pub bytes_of : Option (Option (Held S.Obj)) → Option (Option Bytes)
  bytes_of none = some none
  bytes_of (some none) = none
  bytes_of (some (some h)) = some (some (held_bytes S h))

  module _ (sha256 : Bytes → Bytes) (B : BTree (Value S.Obj)) (R : RootStore S) where
    unfoldable pub write :
        SimpleMultiStore S B R → RabbitWrite S.Obj → Option (SimpleMultiStore S B R)
    write s (set_bytes key bz) = rabbit_set sha256 S B R s key bz
    write s (set_object key o) = rabbit_set_obj sha256 S B R s key o
    write s (delete_key key) = rabbit_delete sha256 S B R s key

    unfoldable pub run_writes :
        List (RabbitWrite S.Obj) → SimpleMultiStore S B R → Option (SimpleMultiStore S B R)
    run_writes [] s = some s
    run_writes (w ∷ ws) s = do s' ← write s w; run_writes ws s'

    abbrev pub After : (SimpleMultiStore S B R → Type 0) → Option (SimpleMultiStore S B R) → Type 0
    After P none = Unit
    After P (some s) = P s

    -- Each write finds room for its key in the store that it meets.
    unfoldable pub HasRooms : List (RabbitWrite S.Obj) → SimpleMultiStore S B R → Type 0
    HasRooms [] s = Unit
    HasRooms (w ∷ ws) s =
        (has_room sha256 S B R s (key_of w) ≡ true) × After (HasRooms ws) (write s w)

    moved-Holds :
        (s s' : SimpleMultiStore S B R) (es : List (Live S.Obj))
        → Holds sha256 S B R s es
        → Moved S B R s (cells S B R s) s'
        → Holds sha256 S B R s' es
    moved-Holds s s' es h m = record {
      readable = m.readable;
      represents = subst (λ f. Represents sha256 f es) (sym (fun_ext m.viewed)) h.represents;
    }

    -- What becomes of the keys with a write.
    pub record Written (s : SimpleMultiStore S B R) (es : List (Live S.Obj))
        (result : Option (SimpleMultiStore S B R)) (f : Bytes → Option (Option (Held S.Obj)))
        : Type 0 where
      pub store : SimpleMultiStore S B R
      pub entries : List (Live S.Obj)
      pub done : result ≡ some store
      pub held : Holds sha256 S B R store entries
      pub fewer : length entries ≤ suc (length es)
      pub contents : (j : Bytes) → content entries j ≡ f j

    content-set :
        (es : List (Live S.Obj)) (key j : Bytes) (d : ℕ) (obj : Held S.Obj)
        → content (record { key = key; depth = d; obj = some obj } ∷ without key es) j
          ≡ (if bytes_eq key j then some (some obj) else content es j)
    unfolding content
    content-set es key j d obj = elim (Bool-cases (bytes_eq key j)) [
      | inl b ↦ rw b refl
      | inr b ↦ rw b (content-without es key j ∙ rw b refl)
    ]

    pub set_helper-Written :
        (s : SimpleMultiStore S B R) (es : List (Live S.Obj)) (key : Bytes) (obj : Held S.Obj)
        → Holds sha256 S B R s es
        → has_room sha256 S B R s key ≡ true
        → 100 * suc (length es) < 2 ^ 64
        → Written s es
            (set_helper sha256 S B R s key obj)
            (λ j. if bytes_eq key j then some (some obj) else content es j)
    set_helper-Written s es key obj h room few = elim (Absent-cases key es) [
      | inl (e, k, m) ↦
          subst
            (λ i.
              Written s es (set_helper sha256 S B R s i obj)
                (λ j. if bytes_eq i j then some (some obj) else content es j))
            k
            (let (s', done, held) = set-Member sha256 S B R s es e obj h m few in
              record {
                store = s';
                entries = record e { obj = some obj } ∷ without e.key es;
                done = done;
                held = held;
                fewer = omega (arith, length-without e.key es);
                contents = λ j. content-set es e.key j e.depth obj;
              })
      | inr a ↦
          (let (s', d, done, held) = set-Absent sha256 S B R s es key obj h a room few in
            record {
              store = s';
              entries = record { key = key; depth = d; obj = some obj } ∷ without key es;
              done = done;
              held = held;
              fewer = omega (arith, length-without key es);
              contents = λ j. content-set es key j d obj;
            })
    ]

    pub delete-Written :
        (s : SimpleMultiStore S B R) (es : List (Live S.Obj)) (key : Bytes)
        → Holds sha256 S B R s es
        → has_room sha256 S B R s key ≡ true
        → Written s es
            (rabbit_delete sha256 S B R s key)
            (λ j. if bytes_eq key j then none else content es j)
    unfolding rabbit_delete find
    delete-Written s es key h room = elim (Absent-cases key es) [
      | inl (e, k, m) ↦
          subst
            (λ i.
              Written s es (rabbit_delete sha256 S B R s i)
                (λ j. if bytes_eq i j then none else content es j))
            k
            (let (s', done, held) = delete-Member sha256 S B R s es e h m in
              record {
                store = s';
                entries = without e.key es;
                done = done;
                held = held;
                fewer = omega (arith, length-without e.key es);
                contents = content-without es e.key;
              })
      | inr a ↦
          (let l = find-Absent sha256 S B R s es key true h a room in
            record {
              store = l.located.found.store;
              entries = es;
              done =
                  rw
                    (
                      l.located.done,
                      (Located-path sha256 S B R l.located).0,
                      l.located.status,
                      l.not_exists,
                    )
                    refl;
              held = moved-Holds s l.located.found.store es h l.located.moved;
              fewer = omega arith;
              contents = λ j.
                  ap (λ t. content t j) (sym (without-Absent key es a)) ∙ content-without es key j;
            })
    ]
