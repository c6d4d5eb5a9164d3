-- ===== src/Tree/Synced.antt =====
-- syncMT4YoungestTwig restores the Merkle tree of the youngest twig.
use onvakv.Base.{
  ℕ, zero, suc, ◌+◌, ◌*◌, ◌/◌, ◌<◌, ◌≤◌, ◌≡◌, refl, sym, subst, ◌∙◌, arith, ◌⊎◌, inl, inr,
}
use onvakv.Types.{Bytes}
use onvakv.Tree.Youngest.{Array, width, sync_row, sync_rows}
use onvakv.Tree.Rows.{IsParent, sync_row-IsParent, sync_row_cases}

abbrev pub IsOutside : (start end_ p : ℕ) → Type 0
IsOutside start end_ p = (p < start / 2) ⊎ (end_ / 2 < p)

in_or_out : (start end_ p : ℕ) → IsOutside start end_ p ⊎ ((start / 2 ≤ p) × (p ≤ end_ / 2))
in_or_out start end_ p = ground arith

module _ (sha256 : Bytes → Bytes) where
  abbrev pub IsRow : (level h : ℕ) → Array Bytes → Type 0
  IsRow level h mt = (p : ℕ) → p < h → IsParent sha256 level h p mt mt

  -- The row of 2 ^ (c - 1) nodes, and every row above.
  abbrev pub AreRows : (c level : ℕ) → Array Bytes → Type 0
  AreRows zero level mt = Unit
  AreRows (suc c) level mt = IsRow level (width c) mt × AreRows c (level + 1) mt

  pub IsParent-agree :
      (level h p : ℕ) (a b a' b' : Array Bytes)
      → a (h + p) ≡ a' (h + p)
      → b (2 * h + 2 * p) ≡ b' (2 * h + 2 * p)
      → b (2 * h + 2 * p + 1) ≡ b' (2 * h + 2 * p + 1)
      → IsParent sha256 level h p a b
      → IsParent sha256 level h p a' b'
  IsParent-agree level h p a b a' b' ea e₀ e₁ x = sym ea ∙ x ∙ rw (e₀, e₁) refl

  -- Rows are not affected by what stands below them.
  pub AreRows-agree :
      (c level : ℕ) (a b : Array Bytes)
      → ((i : ℕ) → i < 2 * width c → a i ≡ b i)
      → AreRows c level a
      → AreRows c level b
  AreRows-agree zero level a b h x = tt
  AreRows-agree (suc c) level a b h (r, x) = (
    λ p l.
        IsParent-agree level (width c) p a a b b (h (width c + p) (omega arith))
          (h (2 * width c + 2 * p) (omega arith)) (h (2 * width c + 2 * p + 1) (omega arith))
          (r p l),
    AreRows-agree c (level + 1) a b (λ i l. h i (omega arith)) x,
  )

  module _ (h level start end_ : ℕ) (mt : Array Bytes) where
    synced : Array Bytes
    synced = sync_row sha256 h level start end_ mt

    away : (i : ℕ) → (i < h) ⊎ (2 * h ≤ i) → synced i ≡ mt i
    unfolding synced
    away i a = elim (sync_row_cases sha256 h level start end_ mt i) [
      | inl (p, l, e, x) ↦ absurd (ground (arith, l, e, a))
      | inr e ↦ e
    ]

    module _
        (ok_outside : (p : ℕ)
          → p < h
          → IsOutside start end_ p
          → IsParent sha256 level h p mt mt) where
      kept : (p : ℕ) → p < h → IsOutside start end_ p → synced (h + p) ≡ mt (h + p)
      unfolding synced
      kept p l o = elim (sync_row_cases sha256 h level start end_ mt (h + p)) [
        | inl (q, m, e, x) ↦
            subst (λ y. synced (h + y) ≡ mt (h + y)) (omega arith)
              (subst (λ y. IsParent sha256 level h y synced mt) (omega arith) x
                ∙ sym (ok_outside p l o))
        | inr e ↦ e
      ]

      restored : IsRow level h synced
      unfolding synced
      restored p l =
          IsParent-agree level h p synced mt synced synced refl
            (sym (away (2 * h + 2 * p) (inr (omega arith))))
            (sym (away (2 * h + 2 * p + 1) (inr (omega arith))))
            (elim (in_or_out start end_ p) [
              | inl o ↦
                  IsParent-agree level h p mt mt synced mt (sym (kept p l o)) refl refl
                    (ok_outside p l o)
              | inr (a, b) ↦ sync_row-IsParent sha256 h level start end_ mt p l a b
            ])

  pub sync_rows_below :
      (c level start end_ : ℕ) (mt : Array Bytes) (i : ℕ)
      → width c ≤ i
      → sync_rows sha256 c level start end_ mt i ≡ mt i
  unfolding sync_rows synced
  sync_rows_below zero level start end_ mt i h = refl
  sync_rows_below (suc c) level start end_ mt i h =
      sync_rows_below c (level + 1) (start / 2) (end_ / 2) (synced (width c) level start end_ mt) i
        (omega arith)
      ∙ away (width c) level start end_ mt i (inr h)

  -- The loop restores the rows, where only parents of the nodes from start to end are wrong in the lowest.
  pub sync_rows-AreRows :
      (c level start end_ : ℕ) (mt : Array Bytes)
      → ((p : ℕ) → p < width c → IsOutside start end_ p → IsParent sha256 level (width c) p mt mt)
      → AreRows c (level + 1) mt
      → AreRows (suc c) level (sync_rows sha256 (suc c) level start end_ mt)
  unfolding sync_rows synced
  sync_rows-AreRows zero level start end_ mt o x = (restored 1 level start end_ mt o, tt)
  sync_rows-AreRows (suc c) level start end_ mt o (r, x) =
      (let h = width c in
        let m = synced (2 * h) level start end_ mt in
        let final = sync_rows sha256 (suc c) (level + 1) (start / 2) (end_ / 2) m in
        let low = restored (2 * h) level start end_ mt o in
        let later : (p : ℕ)
            → p < h
            → IsOutside (start / 2) (end_ / 2) p
            → mt (2 * h + 2 * p + 1) ≡ m (2 * h + 2 * p + 1) =
          λ p l out.
            subst (λ y. mt y ≡ m y) (omega arith)
              (sym (
                kept (2 * h) level start end_ mt o (2 * p + 1) (omega arith)
                  (ground (arith, out)))) in
        let below = sync_rows_below (suc c) (level + 1) (start / 2) (end_ / 2) m in
        (
          λ p l.
              IsParent-agree level (2 * h) p m m final final (sym (below (2 * h + p) (omega arith)))
                (sym (below (2 * (2 * h) + 2 * p) (omega arith)))
                (sym (below (2 * (2 * h) + 2 * p + 1) (omega arith))) (low p l),
          sync_rows-AreRows c (level + 1) (start / 2) (end_ / 2) m
              (λ p l out.
                IsParent-agree (level + 1) h p mt mt m m
                  (sym (away (2 * h) level start end_ mt (h + p) (inl (omega arith))))
                  (sym (
                    kept (2 * h) level start end_ mt o (2 * p) (omega arith) (ground (arith, out))))
                  (later p l out) (r p l))
              (AreRows-agree c (level + 1 + 1) mt m
                (λ i l. sym (away (2 * h) level start end_ mt i (inl l))) x),
        ))
