-- ===== src/Elf/Refuses.antt =====
-- What a refusal of `m11_elf64_plan_load` leaves in the plan.
use mcsos.Common.{
  ℕ, zero, suc, ◌+◌, ◌*◌, ◌≡◌, refl, sym, ap, ◌∙◌, true, false, List, some, arith, ltb, ◌==◌,
  Bool-cases, inl, inr, ◌⊎◌, subst,
}
use mcsos.Elf.Image.{
  ElfStatus, Phdr, UserRegion, ProcessImagePlan, sizeof_ehdr, sizeof_phdr, pt_load, ehdr_at,
  phdr_at,
}
use mcsos.Elf.Plan.{
  zero_plan, validate_load_segment, segment_checked, go_on, plan_segment, plan_segments,
  validate_header, after_header, plan_load,
}
use mcsos.Elf.Range.{is_ok}
use mcsos.Elf.Accepts.{round-skips, round-few, round-adds}

-- A plan with no segment: only its entry point may be set.
pub NoSegment : ProcessImagePlan → Type 0
NoSegment plan = (plan.segment_count ≡ 0) × (plan.segments ≡ zero_plan.segments)

-- A plan is either under construction, with its segments counted, or has none.
Started : ProcessImagePlan → Type 0
Started plan = plan.segment_count ≡ 0 → plan.segments ≡ zero_plan.segments

segment_checked-refuses :
    (s : ElfStatus) (plan : ProcessImagePlan) (ph : Phdr)
    → is_ok (segment_checked s plan ph).0 ≡ false
    → (segment_checked s plan ph).1 ≡ zero_plan
segment_checked-refuses s plan ph h = ground arith

plan_segment-refuses :
    (ph : Phdr) (image_size : ℕ) (region : UserRegion) (plan : ProcessImagePlan)
    → is_ok (plan_segment ph image_size region plan).0 ≡ false
    → (plan_segment ph image_size region plan).1 ≡ zero_plan
unfolding plan_segment
plan_segment-refuses ph image_size region plan h =
    ground (arith, segment_checked-refuses (validate_load_segment ph image_size region) plan ph)

go_on-refuses :
    (s : ElfStatus) (stopped rest : ElfStatus × ProcessImagePlan)
    → stopped.0 ≡ s
    → ((s ≡ ElfStatus.ok) × (go_on s stopped rest ≡ rest))
      ⊎ ((is_ok s ≡ false) × (go_on s stopped rest ≡ stopped))
go_on-refuses s stopped rest e = ground arith

round-Started :
    (ph : Phdr) (image_size : ℕ) (region : UserRegion) (plan : ProcessImagePlan)
    → Started plan
    → (plan_segment ph image_size region plan).0 ≡ ElfStatus.ok
    → Started (plan_segment ph image_size region plan).1
unfolding Started
round-Started ph image_size region plan started h = elim (Bool-cases (ph.p_type == pt_load)) [
  | inl e ↦
      let lt = round-few ph image_size region plan e h in
      subst (λ r. r.1.segment_count ≡ 0 → r.1.segments ≡ zero_plan.segments)
        (sym (round-adds ph image_size region plan e h)) (λ z. absurd (omega (arith, z, lt)))
  | inr e ↦
      subst (λ r. r.1.segment_count ≡ 0 → r.1.segments ≡ zero_plan.segments)
        (sym (round-skips ph image_size region plan e)) started
]

zero_plan-NoSegment : NoSegment zero_plan
unfolding NoSegment
zero_plan-NoSegment = (refl, refl)

module _ (image : List ℕ) (image_size : ℕ) (region : UserRegion) (phoff : ℕ) where
  loop-ends_empty :
      (i : ℕ) (plan : ProcessImagePlan)
      → Started plan
      → is_ok (plan_segments image image_size region phoff zero i plan).0 ≡ false
      → NoSegment (plan_segments image image_size region phoff zero i plan).1
  unfolding plan_segments NoSegment Started
  loop-ends_empty i plan started h = elim (Bool-cases (plan.segment_count == 0)) [
    | inl e ↦ (ground (arith, e), rw e (started (ground (arith, e))))
    | inr e ↦ absurd (ground (arith, e))
  ]

  loop-NoSegment :
      (n i : ℕ) (plan : ProcessImagePlan)
      → Started plan
      → is_ok (plan_segments image image_size region phoff n i plan).0 ≡ false
      → NoSegment (plan_segments image image_size region phoff n i plan).1
  unfolding plan_segments
  loop-NoSegment zero i plan started h = loop-ends_empty i plan started h
  loop-NoSegment (suc n) i plan started h =
      let ph = phdr_at image (phoff + i * sizeof_phdr) in
      let round = plan_segment ph image_size region plan in
      let rest = plan_segments image image_size region phoff n (i + 1) round.1 in
      elim (go_on-refuses round.0 round rest refl) [
        | inl g ↦
            subst (λ r. NoSegment r.1) (sym g.1)
              (loop-NoSegment n (i + 1) round.1
                (round-Started ph image_size region plan started g.0)
                (ap (λ r. is_ok r.0) (sym g.1) ∙ h))
        | inr g ↦
            subst (λ r. NoSegment r.1) (sym g.1)
              (subst NoSegment (sym (plan_segment-refuses ph image_size region plan g.0))
                zero_plan-NoSegment)
      ]

after_header-refuses :
    (rc : ElfStatus) (done : ElfStatus × ProcessImagePlan)
    → (is_ok done.0 ≡ false → NoSegment done.1)
    → is_ok (after_header rc done).0 ≡ false
    → (plan : ProcessImagePlan) × ((after_header rc done).1 ≡ some plan) × NoSegment plan
after_header-refuses ElfStatus.ok done f h = (done.1, refl, f h)
after_header-refuses ElfStatus.err_null done f h = (zero_plan, refl, zero_plan-NoSegment)
after_header-refuses rc done f h = (zero_plan, ground arith, zero_plan-NoSegment)

load-large :
    (image : List ℕ) (image_size : ℕ) (region : UserRegion) (out : ProcessImagePlan)
    → ltb image_size sizeof_ehdr ≡ false
    → let eh = ehdr_at image 0 in
      plan_load (some image) image_size region (some out)
      ≡ after_header (validate_header eh image_size region) (
          plan_segments image image_size region eh.e_phoff eh.e_phnum 0
            (record zero_plan { entry = eh.e_entry }))
unfolding plan_load
load-large image image_size region out e = rw e refl

load-small :
    (image : List ℕ) (image_size : ℕ) (region : UserRegion) (out : ProcessImagePlan)
    → ltb image_size sizeof_ehdr ≡ true
    → plan_load (some image) image_size region (some out) ≡ (ElfStatus.err_size, some zero_plan)
unfolding plan_load
load-small image image_size region out e = rw e refl

-- When `m11_elf64_plan_load` refuses an image for any reason, the plan that it was given holds no
-- segment afterwards: its count is 0 and all eight entries are zero.
pub plan_load-NoSegment :
    (image : List ℕ) (image_size : ℕ) (region : UserRegion) (out : ProcessImagePlan)
    → is_ok (plan_load (some image) image_size region (some out)).0 ≡ false
    → (plan : ProcessImagePlan) × ((plan_load (some image) image_size region (some out)).1
        ≡ some plan)
      × NoSegment plan
unfolding Started
plan_load-NoSegment image image_size region out h =
    let eh = ehdr_at image 0 in
    let start : ProcessImagePlan = record zero_plan { entry = eh.e_entry } in
    let done = plan_segments image image_size region eh.e_phoff eh.e_phnum 0 start in
    elim (Bool-cases (ltb image_size sizeof_ehdr)) [
      | inl e ↦
          (zero_plan, ap (λ r. r.1) (load-small image image_size region out e), zero_plan-NoSegment)
      | inr e ↦
          let el = load-large image image_size region out e in
          let refused =
            after_header-refuses (validate_header eh image_size region) done
              (loop-NoSegment image image_size region eh.e_phoff eh.e_phnum 0 start (λ z. refl))
              (ap (λ r. is_ok r.0) (sym el) ∙ h) in
          (refused.0, ap (λ r. r.1) el ∙ refused.1, refused.2)
    ]
