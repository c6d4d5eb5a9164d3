-- ===== src/OnvaKv/Linked.antt =====
-- What the first loop of `update` leaves behind, described from the right: an entry points to the
-- live entry behind it exactly where an insertion or a deletion came between.
use onvakv.Base.{
  Bool, true, false, not, ◌&&◌, ◌||◌, none, some, List, [], ◌∷◌, ◌≡◌, refl, sym, ap, ◌∙◌, inl, inr,
  if◌then◌else◌, arith, Bool-cases, All,
}
use onvakv.Types.{Bytes, HotEntry}
use onvakv.OnvaKv.Link.{
  is_none, is_delete, is_fake_inserted, is_inserted, is_changed, is_hint_hot_entry, is_live,
  get_next, touch_prev, link_entry, slice, link_loop, link_entries,
}

-- Does the loop write to the nearest live entry before these?
unfoldable pub disturbs : List HotEntry → Bool
disturbs [] = false
disturbs (h ∷ after) =
    let rest = disturbs after in
    if is_fake_inserted h then rest else if is_delete h.operation then true else is_inserted h

-- The writes to an entry from those behind it.
unfoldable pub touched : List HotEntry → HotEntry → HotEntry
touched after h =
    if disturbs after
    then elim (get_next after) [
      | none ↦ h
      | some k ↦ record h { entry = record h.entry { next_key = k }; is_touched_by_next = true }
    ]
    else h

-- The writes to an entry at its own turn.
unfoldable pub own : List HotEntry → HotEntry → HotEntry
own after h =
    if is_fake_inserted h
    then h
    else if is_delete h.operation
    then record h { is_modified = true }
    else if is_inserted h
    then elim (get_next after) [
      | none ↦ record h { is_modified = true }
      | some k ↦ record h { entry = record h.entry { next_key = k }; is_modified = true }
    ]
    else if is_changed h
    then record h { is_modified = true }
    else h

unfoldable pub settled : List HotEntry → HotEntry → HotEntry
settled after h = if is_live h then touched after (own after h) else own after h

unfoldable pub linked : List HotEntry → List HotEntry
linked [] = []
linked (h ∷ after) = settled after h ∷ linked after

-- The writes to the nearest live entry, and what is still to be written to the entries before the
-- index.
unfoldable pub touch_first : Bytes → List HotEntry → List HotEntry
touch_first k [] = []
touch_first k (h ∷ before) =
    let rest = touch_first k before in
    if is_live h
    then record h { entry = record h.entry { next_key = k }; is_touched_by_next = true } ∷ before
    else h ∷ rest

unfoldable pub pending : List HotEntry → List HotEntry → List HotEntry
pending before after =
    if disturbs after
    then elim (get_next after) [ none ↦ before | some k ↦ touch_first k before ]
    else before

-- The guards at both ends: some live entry before, and a live entry at the end that is no insertion.
unfoldable pub has_live : List HotEntry → Bool
has_live [] = false
has_live (h ∷ before) = is_live h || has_live before

abbrev pub IsGuard : HotEntry → Type 0
IsGuard h = (is_live h ≡ true) × (is_inserted h ≡ false)

abbrev pub EndsWithGuard : List HotEntry → Type 0
EndsWithGuard [] = Unit
EndsWithGuard (h ∷ []) = IsGuard h
EndsWithGuard (h ∷ x ∷ after) = EndsWithGuard (x ∷ after)

-- No operation on a hint.
abbrev pub IsUsable : HotEntry → Type 0
IsUsable h = (not (is_none h.operation) && is_hint_hot_entry h) ≡ false

pub get_next-EndsWithGuard :
    (x : HotEntry) (after : List HotEntry)
    → EndsWithGuard (x ∷ after)
    → (k : Bytes) × (get_next (x ∷ after) ≡ some k)
unfolding get_next
get_next-EndsWithGuard x [] g = (x.entry.key, rw g.0)
get_next-EndsWithGuard x (y ∷ after) g = elim (Bool-cases (is_live x)) [
  | inl live ↦ (x.entry.key, rw live)
  | inr dead ↦ let (k, e) = get_next-EndsWithGuard y after g in (k, rw dead e)
]

touch_prev-touch_first :
    (k : Bytes) (before : List HotEntry)
    → has_live before ≡ true
    → touch_prev k before ≡ some (touch_first k before)
unfolding touch_prev touch_first has_live
touch_prev-touch_first k [] e = cc
touch_prev-touch_first k (h ∷ before) e = ground (arith, touch_prev-touch_first k before)

has_live-touch_first :
    (k : Bytes) (before : List HotEntry) → has_live (touch_first k before) ≡ has_live before
unfolding touch_first has_live is_live is_fake_inserted
has_live-touch_first k [] = refl
has_live-touch_first k (h ∷ before) = ground (arith, has_live-touch_first k before)

touch_first_again :
    (j k : Bytes) (before : List HotEntry)
    → touch_first k (touch_first j before) ≡ touch_first k before
unfolding touch_first is_live is_fake_inserted
touch_first_again j k [] = refl
touch_first_again j k (h ∷ before) = ground (arith, touch_first_again j k before)

-- One turn of the loop, seen from the entries behind it.
record Turn (before : List HotEntry) (h : HotEntry) (after : List HotEntry) : Type 0 where
  before' : List HotEntry
  h' : HotEntry
  done : link_entry before h after ≡ some (before', h')
  leaves : pending (h' ∷ before') after ≡ settled after h ∷ pending before (h ∷ after)
  live : has_live before ≡ true → has_live (h' ∷ before') ≡ true
  stays : is_live h' ≡ is_live h

module _ (before : List HotEntry) (h : HotEntry) (after : List HotEntry) (u : IsUsable h) where
  fake-Turn : is_fake_inserted h ≡ true → Turn before h after
  fake-Turn e = record {
    before' = before;
    h' = h;
    done = unfold link_entry in ground (arith, u, e);
    leaves = unfold pending disturbs get_next touch_first settled own is_live in ground (arith, e);
    live = λ l. unfold has_live in ground (arith, l);
    stays = unfold is_live is_fake_inserted in refl;
  }

  delete-Turn :
      (k : Bytes)
      → has_live before ≡ true
      → get_next after ≡ some k
      → is_fake_inserted h ≡ false
      → is_delete h.operation ≡ true
      → Turn before h after
  delete-Turn k l n f d = record {
    before' = touch_first k before;
    h' = record h { is_modified = true };
    done = unfold link_entry in ground (arith, u, n, f, d, touch_prev-touch_first k before l);
    leaves =
        unfold pending disturbs get_next touch_first settled own is_live is_fake_inserted in
        ground (arith, n, f, d, touch_first_again k k before);
    live = λ l. unfold has_live in ground (arith, l, has_live-touch_first k before);
    stays = unfold is_live is_fake_inserted in refl;
  }

  insert-Turn :
      (k : Bytes)
      → has_live before ≡ true
      → get_next after ≡ some k
      → is_fake_inserted h ≡ false
      → is_delete h.operation ≡ false
      → is_inserted h ≡ true
      → Turn before h after
  insert-Turn k l n f d i = record {
    before' = touch_first h.entry.key before;
    h' = record h { entry = record h.entry { next_key = k }; is_modified = true };
    done =
        unfold link_entry in
        ground (arith, u, n, f, d, i, touch_prev-touch_first h.entry.key before l);
    leaves =
        unfold pending disturbs get_next touch_first touched settled own is_live is_fake_inserted in
        ground (arith, n, f, d, i);
    live = λ l. unfold has_live in ground (arith, l, has_live-touch_first h.entry.key before);
    stays = unfold is_live is_fake_inserted in refl;
  }

  -- An entry that is neither deleted nor inserted needs no neighbours.
  plain-Turn :
      is_fake_inserted h ≡ false
      → is_delete h.operation ≡ false
      → is_inserted h ≡ false
      → Turn before h after
  plain-Turn f d i = elim (Bool-cases (is_changed h)) [
    | inl c ↦ record {
      before' = before;
      h' = record h { is_modified = true };
      done = unfold link_entry in ground (arith, u, f, d, i, c);
      leaves =
          unfold pending disturbs get_next touch_first touched settled own is_live
            is_fake_inserted in
          ground (arith, f, d, i, c);
      live = λ l. unfold has_live in ground (arith, l);
      stays = unfold is_live is_fake_inserted in refl;
    }
    | inr c ↦ record {
      before' = before;
      h' = h;
      done = unfold link_entry in ground (arith, u, f, d, i, c);
      leaves =
          unfold pending disturbs get_next touch_first touched settled own is_live
            is_fake_inserted in
          ground (arith, f, d, i, c);
      live = λ l. unfold has_live in ground (arith, l);
      stays = unfold is_live is_fake_inserted in refl;
    }
  ]

turn :
    (before : List HotEntry) (h : HotEntry) (after : List HotEntry)
    → has_live before ≡ true
    → EndsWithGuard (h ∷ after)
    → IsUsable h
    → Turn before h after
turn before h [] l g u =
    plain-Turn before h [] u (unfold is_live in ground (arith, g.0))
      (unfold is_live in ground (arith, g.0)) g.1
turn before h (x ∷ after) l g u =
    let (k, n) = get_next-EndsWithGuard x after g in
    elim (Bool-cases (is_fake_inserted h)) [
      | inl f ↦ fake-Turn before h (x ∷ after) u f
      | inr f ↦ elim (Bool-cases (is_delete h.operation)) [
        | inl d ↦ delete-Turn before h (x ∷ after) u k l n f d
        | inr d ↦ elim (Bool-cases (is_inserted h)) [
          | inl i ↦ insert-Turn before h (x ∷ after) u k l n f d i
          | inr i ↦ plain-Turn before h (x ∷ after) u f d i
        ]
      ]
    ]

EndsWithGuard-tail :
    (h : HotEntry) (after : List HotEntry) → EndsWithGuard (h ∷ after) → EndsWithGuard after
EndsWithGuard-tail h [] g = tt
EndsWithGuard-tail h (x ∷ after) g = g

pending-nil : (before : List HotEntry) → pending before [] ≡ before
unfolding pending disturbs
pending-nil before = refl

empty-pending : (after : List HotEntry) → pending [] after ≡ []
unfolding pending touch_first
empty-pending after = ground arith

has_live-cons :
    (h : HotEntry) (before : List HotEntry) → is_live h ≡ true → has_live (h ∷ before) ≡ true
unfolding has_live
has_live-cons h before e = rw e

link_loop-linked :
    (after before : List HotEntry)
    → has_live before ≡ true
    → EndsWithGuard after
    → All IsUsable after
    → link_loop before after ≡ some (slice (pending before after) (linked after))
unfolding link_loop linked slice
link_loop-linked [] before l g u = ap (λ t. some (slice t [])) (sym (pending-nil before))
link_loop-linked (h ∷ after) before l g u =
    let t = turn before h after l g u.0 in
    rw t.done (
      link_loop-linked after (t.h' ∷ t.before') (t.live l) (EndsWithGuard-tail h after g) u.1
      ∙ ap (λ s. some (slice s (linked after))) t.leaves)

-- Between a live first entry and a live last one, neither of them an insertion, and with no
-- operation on a hint, the loop does not panic. It leaves every entry as `linked` says: exactly the
-- live entries behind which an entry was deleted or inserted before the next live one, and the
-- inserted ones, point to the next live entry.
pub link_entries-linked :
    (first : HotEntry) (rest : List HotEntry)
    → IsGuard first
    → EndsWithGuard (first ∷ rest)
    → All IsUsable (first ∷ rest)
    → link_entries (first ∷ rest) ≡ some (linked (first ∷ rest))
unfolding link_entries link_loop linked slice
link_entries-linked first rest g e u = rw t.done (
    link_loop-linked rest (t.h' ∷ t.before') (has_live-cons t.h' t.before' (t.stays ∙ g.0))
      (EndsWithGuard-tail first rest e) u.1
    ∙ ap (λ s. some (slice s (linked rest)))
        (t.leaves ∙ ap (λ t. settled rest first ∷ t) (empty-pending (first ∷ rest))))
  where
    t : Turn [] first rest
    t =
        plain-Turn [] first rest u.0 (unfold is_live in ground (arith, g.0))
          (unfold is_live in ground (arith, g.0)) g.1
