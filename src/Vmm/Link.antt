-- ===== src/Vmm/Link.antt =====
-- A new, cleared table behind an entry that was not present: every query answers as before.
use mcsos.Common.{ℕ, ◌<◌, ◌≡◌, ◌≢◌, sym, ap, ◌∙◌, subst, false, List, arith, inl, inr}
use mcsos.Vmm.Table.{
  Status, ok, enot_found, Walk, found, stop, ◌>>=◌, Machine, VmmSpace, is_present, put, next_table,
  query_entry, idx_pt,
}
use mcsos.Vmm.Paths.{IsPath, IsPath-weaken, Walk_cases, reach, IsTree, path, path-IsPath}
use mcsos.Vmm.Change.{put-other, put-world, reach-put_link, before-linked, new-not_t, Linked}
use mcsos.Vmm.Extend.{Extends, query_page-same, query_entry-same, query_entry-absent}

pub stop_inj : {s r : Status} → (x : Walk ℕ) → x ≡ stop s → x ≡ stop r → s ≡ r
stop_inj x e f = ap (λ y. elim y [ found a ↦ ok | stop s ↦ s ]) (sym e ∙ f)

pub found_inj : {a b : ℕ} → found a ≡ found b → a ≡ b
found_inj e = ap (λ x. elim x [ found a ↦ a | stop s ↦ 0 ]) e

pub stop≢found : {A : Type 0} {s : Status} {a : A} → stop s ≡ found a → ⊥
stop≢found e = cc

module _ {W : Type 0} (space : VmmSpace W) (owned : W → ℕ → Type 0) (m : Machine W)
    (tree : IsTree space owned m) (p : List ℕ) (t i v : ℕ) (at : reach space m p ≡ found t) (t' : ℕ)
    (unreached : (q : List ℕ) → IsPath 3 q → reach space m q ≡ found t' → ⊥)
    (clear : (j : ℕ) → j < 512 → m.tables t' j ≡ 0) (absent : is_present (m.tables t i) ≡ false)
    (links : next_table space (put t i v m) i t ≡ found t') (hp : IsPath 2 p) (hi : i < 512)
    (given : owned m.world t') where
  empty : (w : ℕ) → is_present ((put t i v m).tables t' (idx_pt w)) ≡ false
  unfolding idx_pt
  empty w = ap is_present (
      put-other m t i v t' (idx_pt w)
        (inl (new-not_t space owned m tree p t i v at t' unreached clear absent links hp hi))
      ∙ clear (idx_pt w) (omega arith))

  cases :
      (q : List ℕ)
      → IsPath 3 q
      → Linked space owned m tree p t i v at t' unreached clear absent links hp hi q
  cases = reach-put_link space owned m tree p t i v at t' unreached clear absent links hp hi

  linked-owns :
      (q : List ℕ) (s : ℕ)
      → IsPath 3 q
      → reach space (put t i v m) q ≡ found s
      → owned (put t i v m).world s
  linked-owns q s h e = elim (cases q h) [
    | inl a ↦ subst (λ x. owned x s) (sym (put-world m t i v)) (tree.owns q s h (sym a ∙ e))
    | inr (b, c) ↦
        subst (owned (put t i v m).world) (found_inj (sym c ∙ e))
          (subst (λ x. owned x t') (sym (put-world m t i v)) given)
  ]

  linked-one_path :
      (q r : List ℕ) (s : ℕ)
      → IsPath 3 q
      → IsPath 3 r
      → reach space (put t i v m) q ≡ found s
      → reach space (put t i v m) r ≡ found s
      → q ≡ r
  linked-one_path q r s hq hr e f = elim (cases q hq) [
    | inl a ↦ elim (cases r hr) [
      | inl b ↦ tree.one_path q r s hq hr (sym a ∙ e) (sym b ∙ f)
      | inr (b, c) ↦ absurd (unreached q hq (sym a ∙ e ∙ sym f ∙ c))
    ]
    | inr (a, c) ↦ elim (cases r hr) [
      | inl b ↦ absurd (unreached r hr (sym b ∙ f ∙ sym e ∙ c))
      | inr (b, d) ↦ a ∙ sym b
    ]
  ]

  linked-query :
      (w : ℕ)
      → reach space (put t i v m) (path space w) >>= query_entry (put t i v m) w
        ≡ reach space m (path space w) >>= query_entry m w
  linked-query w =
      let q = path space w in
      let hq = path-IsPath space w in
      let k = put t i v m in
      elim (cases q hq) [
        | inl a ↦ elim (Walk_cases (reach space m q)) [
          | inl (s, f) ↦
              let ends : s ≢ t = λ e.
                (subst (IsPath 2)
                  (sym (tree.one_path q p s hq (IsPath-weaken 2 p hp) f (at ∙ ap found (sym e))))
                  hp).1.1 in
              ap (λ x. x >>= query_entry k w) (a ∙ f)
              ∙ query_entry-same k m w s (put-other m t i v s (idx_pt w) (inl ends))
              ∙ sym (ap (λ x. x >>= query_entry m w) f)
          | inr (s, f) ↦
              ap (λ x. x >>= query_entry k w) (a ∙ f) ∙ sym (ap (λ x. x >>= query_entry m w) f)
        ]
        | inr (b, c) ↦
            let before : reach space m q ≡ stop enot_found =
              ap (reach space m) b
              ∙ before-linked space owned m tree p t i v at t' unreached clear absent links hp hi in
            ap (λ x. x >>= query_entry k w) c
            ∙ query_entry-absent k w t' (empty w)
            ∙ sym (ap (λ x. x >>= query_entry m w) before)
      ]

  pub Extends-link : Extends space owned m (put t i v m)
  Extends-link = record {
    tree = record { owns = linked-owns; one_path = linked-one_path };
    same = query_page-same space owned m (put t i v m) linked-query;
  }
