-- ===== src/OnvaKv/Chain.antt =====
-- The chain of NextKeys after the first loop of `update`.
use onvakv.Base.{
  true, false, ◌||◌, some, List, [], ◌∷◌, ◌≡◌, refl, sym, ap, ◌∙◌, arith, All, none-ne-some,
}
use onvakv.Types.{Bytes, HotEntry}
use onvakv.OnvaKv.Link.{is_fake_inserted, is_inserted, is_live, get_next, link_entries}
use onvakv.OnvaKv.Linked.{
  disturbs, touched, own, settled, linked, IsGuard, EndsWithGuard, IsUsable, link_entries-linked,
  get_next-EndsWithGuard,
}

-- A live entry is touched just where an entry behind it, up to the next live one, was deleted or
-- inserted, and one that is touched or inserted points to the next live entry.
pub record IsChainedTo (h : HotEntry) (after : List HotEntry) : Type 0 where
  pub touched : is_live h ≡ true → h.is_touched_by_next ≡ disturbs after
  pub points :
      (k : Bytes)
      → is_live h ≡ true
      → (h.is_touched_by_next || is_inserted h) ≡ true
      → get_next after ≡ some k
      → h.entry.next_key ≡ k

abbrev pub IsChained : List HotEntry → Type 0
IsChained [] = Unit
IsChained (h ∷ after) = IsChainedTo h after × IsChained after

get_next-linked : (after : List HotEntry) → get_next (linked after) ≡ get_next after
unfolding get_next linked settled touched own is_live is_fake_inserted
get_next-linked [] = refl
get_next-linked (h ∷ after) = ground (arith, get_next-linked after)

disturbs-linked : (after : List HotEntry) → disturbs (linked after) ≡ disturbs after
unfolding disturbs linked settled touched own is_live is_fake_inserted is_inserted
disturbs-linked [] = refl
disturbs-linked (h ∷ after) = ground (arith, disturbs-linked after)

live-settled : (h : HotEntry) (after : List HotEntry) → is_live (settled after h) ≡ is_live h
unfolding settled touched own is_live is_fake_inserted
live-settled h after = ground arith

inserted-settled :
    (h : HotEntry) (after : List HotEntry) → is_inserted (settled after h) ≡ is_inserted h
unfolding settled touched own is_live is_fake_inserted is_inserted
inserted-settled h after = ground arith

touched-settled :
    (h : HotEntry) (after : List HotEntry) (k : Bytes)
    → is_live h ≡ true
    → h.is_touched_by_next ≡ false
    → get_next after ≡ some k
    → (settled after h).is_touched_by_next ≡ disturbs after
unfolding settled touched own is_live
touched-settled h after k l t n = ground (arith, l, t, n)

touched_last :
    (h : HotEntry) → h.is_touched_by_next ≡ false → (settled [] h).is_touched_by_next ≡ false
unfolding settled touched own is_live disturbs get_next
touched_last h t = ground (arith, t)

pub settled_points :
    (h : HotEntry) (after : List HotEntry) (k : Bytes)
    → is_live h ≡ true
    → (disturbs after || is_inserted h) ≡ true
    → get_next after ≡ some k
    → (settled after h).entry.next_key ≡ k
unfolding settled touched own is_live
settled_points h after k l m n = ground (arith, l, m, n)

settled-IsChainedTo :
    (h x : HotEntry) (after : List HotEntry)
    → EndsWithGuard (x ∷ after)
    → h.is_touched_by_next ≡ false
    → IsChainedTo (settled (x ∷ after) h) (linked (x ∷ after))
settled-IsChainedTo h x after g t =
    let (next, n) = get_next-EndsWithGuard x after g in
    let live = live-settled h (x ∷ after) in
    let mark : is_live (settled (x ∷ after) h) ≡ true
        → (settled (x ∷ after) h).is_touched_by_next ≡ disturbs (x ∷ after) =
      λ l. touched-settled h (x ∷ after) next (sym live ∙ l) t n in
    record {
      touched = λ l. mark l ∙ sym (disturbs-linked (x ∷ after));
      points = λ k l m e.
          settled_points h (x ∷ after) k (sym live ∙ l)
            (sym (
                ap (λ b. b || is_inserted (settled (x ∷ after) h)) (mark l)
                ∙ ap (λ b. disturbs (x ∷ after) || b) (inserted-settled h (x ∷ after)))
              ∙ m)
            (sym (get_next-linked (x ∷ after)) ∙ e);
    }

pub linked-IsChained :
    (h : HotEntry) (after : List HotEntry)
    → EndsWithGuard (h ∷ after)
    → All (λ x. x.is_touched_by_next ≡ false) (h ∷ after)
    → IsChained (linked (h ∷ after))
unfolding linked disturbs get_next
linked-IsChained h [] g (t, ts) =
    (record { touched = λ l. touched_last h t; points = λ k l m e. absurd (none-ne-some k e) }, tt)
linked-IsChained h (x ∷ after) g (t, ts) =
    (settled-IsChainedTo h x after g t, linked-IsChained x after g ts)

-- Between live guards that are no insertions, with no operation on a hint and no entry touched before:
-- the loop does not panic, and afterwards a live entry is touched just where an entry behind it, up to
-- the next live one, was deleted or inserted, and every live entry that is touched or inserted points
-- to the next live one.
pub link_entries-IsChained :
    (first : HotEntry) (rest : List HotEntry)
    → IsGuard first
    → EndsWithGuard (first ∷ rest)
    → All IsUsable (first ∷ rest)
    → All (λ x. x.is_touched_by_next ≡ false) (first ∷ rest)
    → (out : List HotEntry) × (link_entries (first ∷ rest) ≡ some out) × IsChained out
link_entries-IsChained first rest g e u t =
    (linked (first ∷ rest), link_entries-linked first rest g e u, linked-IsChained first rest e t)
