-- ===== src/Rabbit/Runs.antt =====
-- A rabbit store over any run of Sets and Deletes is a map of keys.
use onvakv.Base.{
  suc, ◌+◌, ◌*◌, ◌^◌, ◌≤◌, ◌<◌, true, Bool-cases, Option, none, some, some-injective, List, [], ◌∷◌,
  length, ◌≡◌, inl, inr, refl, sym, ap, subst, ◌∙◌, arith, if◌then◌else◌,
}
use onvakv.ByteSlices.{bytes_eq}
use onvakv.Types.{Bytes}
use onvakv.Store.Cache.{Value, Serializable, BTree}
use onvakv.Store.Layers.{RootStore, TrunkStore, trunk_get}
use onvakv.Rabbit.Cached.{Held, raw, object, CachedValue, held_bytes, get_value}
use onvakv.Rabbit.Multi.{SimpleMultiStore, new_simple_multi_store}
use onvakv.Rabbit.Operations.{
  is_exists, find, get_found, value_bytes, rabbit_get, rabbit_set, rabbit_set_obj,
}
use onvakv.Rabbit.Cells.{Cell, cell_of, cells, Points, Parses}
use onvakv.Rabbit.Live.{Live, Member, Absent-cases, All_Member, home, count}
use onvakv.Rabbit.Represents.{IsPlaced}
use onvakv.Rabbit.Holds.{
  content, content-Absent, content-Member, Holds, has_room, find-Member, find-Absent,
}
use onvakv.Rabbit.Refined.{
  set_bytes, set_object, delete_key, RabbitWrite, key_of, replay, bytes_of, write, run_writes,
  After, HasRooms, set_helper-Written, delete-Written,
}

module _ (S : Serializable) where
  module _ (sha256 : Bytes → Bytes) (B : BTree (Value S.Obj)) (R : RootStore S) where
    write-Written :
        (s : SimpleMultiStore S B R) (es : List (Live S.Obj)) (w : RabbitWrite S.Obj)
        (f : Bytes → Option Bytes)
        → Holds sha256 S B R s es
        → has_room sha256 S B R s (key_of S w) ≡ true
        → 100 * suc (length es) < 2 ^ 64
        → ((j : Bytes) → bytes_of S (content es j) ≡ some (f j))
        → (s' : SimpleMultiStore S B R) × (es' : List (Live S.Obj)) × (write S sha256 B R s w
            ≡ some s')
          × Holds sha256 S B R s' es'
          × (length es' ≤ suc (length es))
          × ((g : Bytes → Option Bytes) × ((ws : List (RabbitWrite S.Obj))
                → replay S (w ∷ ws) f ≡ replay S ws g)
              × ((j : Bytes) → bytes_of S (content es' j) ≡ some (g j)))
    unfolding write replay rabbit_set rabbit_set_obj
    write-Written s es (set_bytes key bz) f h room few a =
        (let w = set_helper-Written S sha256 B R s es key (raw bz) h room few in
          (
            w.store,
            w.entries,
            w.done,
            w.held,
            w.fewer,
            (
              (λ j. if bytes_eq key j then some bz else f j),
              (λ ws. refl),
              λ j.
                  ap (bytes_of S) (w.contents j)
                  ∙ unfold held_bytes in
                    elim (Bool-cases (bytes_eq key j)) [ inl b ↦ rw b refl | inr b ↦ rw b (a j) ],
            ),
          ))
    write-Written s es (set_object key o) f h room few a =
        (let w = set_helper-Written S sha256 B R s es key (object o) h room few in
          (
            w.store,
            w.entries,
            w.done,
            w.held,
            w.fewer,
            (
              (λ j. if bytes_eq key j then some (S.to_bytes o) else f j),
              (λ ws. refl),
              λ j.
                  ap (bytes_of S) (w.contents j)
                  ∙ unfold held_bytes in
                    elim (Bool-cases (bytes_eq key j)) [ inl b ↦ rw b refl | inr b ↦ rw b (a j) ],
            ),
          ))
    write-Written s es (delete_key key) f h room few a =
        (let w = delete-Written S sha256 B R s es key h room in
          (
            w.store,
            w.entries,
            w.done,
            w.held,
            w.fewer,
            (
              (λ j. if bytes_eq key j then none else f j),
              (λ ws. refl),
              λ j.
                  ap (bytes_of S) (w.contents j)
                  ∙ elim (Bool-cases (bytes_eq key j)) [ inl b ↦ rw b refl | inr b ↦ rw b (a j) ],
            ),
          ))

    pub run_writes-Holds :
        (ws : List (RabbitWrite S.Obj)) (s : SimpleMultiStore S B R) (es : List (Live S.Obj))
        (f : Bytes → Option Bytes)
        → Holds sha256 S B R s es
        → 100 * (length es + length ws) < 2 ^ 64
        → HasRooms S sha256 B R ws s
        → ((j : Bytes) → bytes_of S (content es j) ≡ some (f j))
        → (s' : SimpleMultiStore S B R) × (es' : List (Live S.Obj)) × (run_writes S sha256 B R ws s
            ≡ some s')
          × Holds sha256 S B R s' es'
          × ((j : Bytes) → bytes_of S (content es' j) ≡ some (replay S ws f j))
    unfolding run_writes HasRooms
    run_writes-Holds [] s es f h few rooms a = (s, es, refl, h, unfold replay in a)
    run_writes-Holds (w ∷ ws) s es f h few rooms a =
        (let (s₁, es₁, done, h₁, l, (g, step, a₁)) =
            write-Written s es w f h rooms.0 (omega (arith, few)) a in
          let (s₂, es₂, rest, h₂, a₂) =
            run_writes-Holds ws s₁ es₁ g h₁ (omega (arith, few, l))
              (subst (After S sha256 B R (HasRooms S sha256 B R ws)) done rooms.1) a₁ in
          (s₂, es₂, rw done rest, h₂, λ j. a₂ j ∙ ap (λ t. some (t j)) (sym (step ws))))

    value_bytes-Points :
        (cv : Option (CachedValue S.Obj)) (o : Option (Cell S.Obj)) (c : Cell S.Obj)
        (x : Held S.Obj)
        → Points S B R cv o
        → o ≡ some c
        → c.obj ≡ some x
        → value_bytes sha256 S B R cv ≡ some (held_bytes S x)
    unfolding value_bytes get_value
    value_bytes-Points none o c x p i j = cc
    value_bytes-Points (some cv) o c x p i j =
        (let same : cv.obj ≡ some x =
            ap (λ t. t.obj) (some-injective (cell_of cv) c (sym p.0 ∙ i)) ∙ j in
          rw (value_bytes, same) refl)

    present :
        (obj : Option (Held S.Obj)) (b : Option Bytes)
        → bytes_of S (some obj) ≡ some b
        → (x : Held S.Obj) × (obj ≡ some x) × (some (held_bytes S x) ≡ b)
    present none b e = cc
    present (some x) b e = (x, refl, some-injective (some (held_bytes S x)) b e)

    -- Get of a key.
    get-Member :
        (s : SimpleMultiStore S B R) (es : List (Live S.Obj)) (e : Live S.Obj) (b : Option Bytes)
        → Holds sha256 S B R s es
        → Member e es
        → bytes_of S (some e.obj) ≡ some b
        → (s' : SimpleMultiStore S B R) × (rabbit_get sha256 S B R s e.key ≡ some (s', b))
    unfolding rabbit_get find get_found is_exists
    get-Member s es e b h m a =
        (let q = find-Member sha256 S B R s es e true h m in
          let p = All_Member (IsPlaced sha256 (cells S B R s)) es e m h.represents.placed in
          let (x, has, answer) = present e.obj b a in
          let bytes =
            value_bytes-Points q.found.cv (cells S B R s (home sha256 e)) p.cell x q.points p.here
              (p.same_obj ∙ has) in
          (
            q.found.store,
            rw (q.done, get_found, q.status, bytes)
                (ap (λ (t : Option Bytes). some (q.found.store, t)) answer),
          ))

    pub get-replay :
        (s : SimpleMultiStore S B R) (es : List (Live S.Obj)) (key : Bytes) (b : Option Bytes)
        → Holds sha256 S B R s es
        → has_room sha256 S B R s key ≡ true
        → bytes_of S (content es key) ≡ some b
        → (s' : SimpleMultiStore S B R) × (rabbit_get sha256 S B R s key ≡ some (s', b))
    unfolding rabbit_get find get_found
    get-replay s es key b h room a = elim (Absent-cases key es) [
      | inl (e, k, m) ↦
          subst
            (λ i.
              (bytes_of S (content es i) ≡ some b)
              → (s' : SimpleMultiStore S B R) × (rabbit_get sha256 S B R s i ≡ some (s', b)))
            k
            (λ a'.
              get-Member s es e b h m
                (ap (bytes_of S) (sym (content-Member es e h.represents.distinct m)) ∙ a'))
            a
      | inr n ↦
          (let l = find-Absent sha256 S B R s es key true h n room in
            let gone : none ≡ b =
              some-injective none b (ap (bytes_of S) (sym (content-Absent es key n)) ∙ a) in
            (
              l.located.found.store,
              rw (l.located.done, get_found, l.located.status, l.not_exists)
                  (ap (λ t. some (l.located.found.store, t)) gone),
            ))
    ]

    pub new-Holds :
        (trunk : TrunkStore S B R)
        → trunk.is_writing ≡ 0
        → ((k : Bytes) → trunk_get S B R trunk k ≡ some none)
        → Holds sha256 S B R (new_simple_multi_store S B R trunk) []
    unfolding new_simple_multi_store cells count
    new-Holds trunk idle vacant = record {
      readable = record {
        idle = idle;
        pointers = λ k e. cc;
        parsed = λ k. subst (Parses S) (sym (vacant k)) tt;
        distinct = tt;
        clean = λ k v e n. cc;
      };
      represents = record {
        few = omega arith;
        distinct = tt;
        placed = tt;
        slots = λ k. rw (vacant k) refl;
      };
    }

    -- A rabbit store over a trunk that has nothing, after any run of Sets, SetObjs and Deletes that find room
    -- among the short keys of their keys, the run being shorter than 2^64 / 100: the run does not panic,
    -- and then Get of a key that finds room answers the bytes that were last set under it, and nothing for
    -- a key that was not set or that was deleted since. Short keys may collide in any way.
    pub run_writes-rabbit_get :
        (ws : List (RabbitWrite S.Obj)) (trunk : TrunkStore S B R)
        → trunk.is_writing ≡ 0
        → ((k : Bytes) → trunk_get S B R trunk k ≡ some none)
        → 100 * length ws < 2 ^ 64
        → HasRooms S sha256 B R ws (new_simple_multi_store S B R trunk)
        → (s : SimpleMultiStore S B R) × (run_writes S sha256 B R ws
              (new_simple_multi_store S B R trunk)
            ≡ some s)
          × ((key : Bytes)
              → has_room sha256 S B R s key ≡ true
              → (s' : SimpleMultiStore S B R) × (rabbit_get sha256 S B R s key
                  ≡ some (s', replay S ws (λ _. none) key)))
    run_writes-rabbit_get ws trunk idle vacant few rooms =
        (let (s, es, done, h, a) =
            run_writes-Holds ws (new_simple_multi_store S B R trunk) [] (λ _. none)
              (new-Holds trunk idle vacant) (omega (arith, few)) rooms
              (λ j. unfold content in refl) in
          (s, done, λ key room. get-replay s es key (replay S ws (λ _. none) key) h room (a key)))
