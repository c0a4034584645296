-- ===== src/Elf/Accepts.antt =====
-- What a plan accepted by `m11_elf64_plan_load` holds, and what a refusal leaves.
use mcsos.Common.{
  ℕ, zero, suc, ◌+◌, ◌-◌, ◌*◌, ◌^◌, ◌≤◌, ◌<◌, ◌≡◌, refl, ap, sym, ◌∙◌, subst, true, false, List, [],
  ◌∷◌, ◌++◌, some, arith, ltb, ◌==◌, if◌then◌else◌, set, replicate, length, length-append,
  Bool-cases, inl, inr,
}
use mathlib.Core.List.{map}
use mcsos.Elf.Image.{
  ElfStatus, Ehdr, Phdr, UserRegion, SegmentPlan, ProcessImagePlan, sizeof_ehdr, sizeof_phdr,
  max_load_segments, pt_load, ehdr_at, phdr_at, read_le,
}
use mcsos.Elf.Plan.{
  empty_segment, zero_plan, validate_user_range, validate_load_segment, planned, segment_checked,
  go_on, plan_segment, plan_segments, validate_header, after_header, plan_load, add_segment,
}
use mcsos.Elf.Range.{
  is_ok, Loadable, Bounded, validate_user_range-contains, validate_load_segment-Loadable,
}

-- The loadable program headers among those left in the table, in its order.
unfoldable pub load_headers : List ℕ → ℕ → ℕ → ℕ → List Phdr
load_headers image phoff zero i = []
load_headers image phoff (suc n) i =
    let ph = phdr_at image (phoff + i * sizeof_phdr) in
    let rest = load_headers image phoff n (i + 1) in
    if ph.p_type == pt_load then ph ∷ rest else rest

pub All : (Phdr → Type 0) → List Phdr → Type 0
All p [] = Unit
All p (x ∷ xs) = p x × All p xs

-- The first entries of a plan are those of the given headers, and the others are empty.
pub record Holds (plan : ProcessImagePlan) (headers : List Phdr) : Type 0 where
  pub count : plan.segment_count ≡ length headers
  pub few : length headers ≤ max_load_segments
  pub entries :
      plan.segments
      ≡ map planned headers ++ replicate (max_load_segments - length headers) empty_segment

read_le-lt : (n : ℕ) (image : List ℕ) (i : ℕ) → read_le n image i < 256 ^ n
unfolding read_le
read_le-lt zero image i = omega arith
read_le-lt (suc n) image i = omega (arith, read_le-lt n image (i + 1))

phdr_at-Bounded : (image : List ℕ) (i : ℕ) → Bounded (phdr_at image i)
unfolding phdr_at
phdr_at-Bounded image i = record {
  offset = read_le-lt 8 image (i + 8);
  vaddr = read_le-lt 8 image (i + 16);
  filesz = read_le-lt 8 image (i + 32);
  memsz = read_le-lt 8 image (i + 40);
}

set-next :
    (xs : List Phdr) (k : ℕ) (ph : Phdr)
    → set (map planned xs ++ replicate (suc k) empty_segment) (length xs) (planned ph)
      ≡ map planned (xs ++ (ph ∷ [])) ++ replicate k empty_segment
set-next [] k ph = refl
set-next (x ∷ xs) k ph = ap (λ ys. planned x ∷ ys) (set-next xs k ph)

abbrev free : List Phdr → List SegmentPlan
free headers = replicate (max_load_segments - length headers) empty_segment

add_segment-Holds :
    (plan : ProcessImagePlan) (headers : List Phdr) (ph : Phdr)
    → Holds plan headers
    → plan.segment_count < max_load_segments
    → Holds (add_segment plan ph) (headers ++ (ph ∷ []))
add_segment-Holds plan headers ph h lt = record {
  count = omega (arith, h.count, h.few, lt, length-append headers (ph ∷ []));
  few = omega (arith, h.count, h.few, lt, length-append headers (ph ∷ []));
  entries =
      let k = max_load_segments - length (headers ++ (ph ∷ [])) in
      let enough : max_load_segments - length headers ≡ suc k =
        omega (arith, h.count, h.few, lt, length-append headers (ph ∷ [])) in
      ap (λ s. set s plan.segment_count (planned ph)) h.entries
      ∙ ap (λ c. set (map planned headers ++ free headers) c (planned ph)) h.count
      ∙ ap
          (λ m.
            set (map planned headers ++ replicate m empty_segment) (length headers) (planned ph))
          enough
      ∙ set-next headers k ph;
}

is_ok→ok : (s : ElfStatus) → is_ok s ≡ true → s ≡ ElfStatus.ok
is_ok→ok s h = ground arith

segment_checked-ok :
    (s : ElfStatus) (plan : ProcessImagePlan) (ph : Phdr)
    → is_ok (segment_checked s plan ph).0 ≡ true
    → s ≡ ElfStatus.ok
segment_checked-ok s plan ph h = ground arith

go_on-ok :
    (s : ElfStatus) (stopped rest : ElfStatus × ProcessImagePlan)
    → stopped.0 ≡ s
    → is_ok (go_on s stopped rest).0 ≡ true
    → (s ≡ ElfStatus.ok) × (go_on s stopped rest ≡ rest)
go_on-ok s stopped rest e h = ground arith

module _ (ph : Phdr) (image_size : ℕ) (region : UserRegion) (plan : ProcessImagePlan) where
  pub round-skips :
      (ph.p_type == pt_load) ≡ false → plan_segment ph image_size region plan ≡ (ElfStatus.ok, plan)
  unfolding plan_segment
  round-skips e = ground arith

  pub round-few :
      (ph.p_type == pt_load) ≡ true
      → (plan_segment ph image_size region plan).0 ≡ ElfStatus.ok
      → plan.segment_count < max_load_segments
  unfolding plan_segment
  round-few e h = ground arith

  round-enters :
      (ph.p_type == pt_load) ≡ true
      → plan.segment_count < max_load_segments
      → plan_segment ph image_size region plan
        ≡ segment_checked (validate_load_segment ph image_size region) plan ph
  unfolding plan_segment
  round-enters e lt = ground arith

  round-accepts :
      (ph.p_type == pt_load) ≡ true
      → (plan_segment ph image_size region plan).0 ≡ ElfStatus.ok
      → validate_load_segment ph image_size region ≡ ElfStatus.ok
  round-accepts e h =
      segment_checked-ok (validate_load_segment ph image_size region) plan ph
        (ap (λ r. is_ok r.0) (sym (round-enters e (round-few e h))) ∙ ap is_ok h)

  pub round-adds :
      (ph.p_type == pt_load) ≡ true
      → (plan_segment ph image_size region plan).0 ≡ ElfStatus.ok
      → plan_segment ph image_size region plan ≡ (ElfStatus.ok, add_segment plan ph)
  round-adds e h =
      round-enters e (round-few e h)
      ∙ ap (λ status. segment_checked status plan ph) (round-accepts e h)

All-append :
    (p : Phdr → Type 0) (xs : List Phdr) (x : Phdr) → All p xs → p x → All p (xs ++ (x ∷ []))
unfolding All
All-append p [] x a px = (px, tt)
All-append p (y ∷ ys) x a px = (a.0, All-append p ys x a.1 px)

append_assoc :
    (xs : List Phdr) (x : Phdr) (ys : List Phdr) → (xs ++ (x ∷ [])) ++ ys ≡ xs ++ (x ∷ ys)
append_assoc [] x ys = refl
append_assoc (y ∷ xs) x ys = ap (λ zs. y ∷ zs) (append_assoc xs x ys)

append_nil : (xs : List Phdr) → xs ++ [] ≡ xs
append_nil [] = refl
append_nil (x ∷ xs) = ap (λ zs. x ∷ zs) (append_nil xs)

-- What the loop has made of the headers that it has passed.
record Planned (image_size : ℕ) (region : UserRegion) (entry : ℕ) (headers : List Phdr)
    (plan : ProcessImagePlan) : Type 0 where
  starts : plan.entry ≡ entry
  holds : Holds plan headers
  loadable : All (Loadable image_size region) headers

module _ (image : List ℕ) (image_size : ℕ) (region : UserRegion) (phoff entry : ℕ)
    (h1 : image_size < 2 ^ 64) (h2 : region.limit < 2 ^ 64) where
  Planned-round :
      (headers : List Phdr) (i : ℕ) (plan : ProcessImagePlan)
      → Planned image_size region entry headers plan
      → (phdr_at image i).p_type == pt_load ≡ true
      → (plan_segment (phdr_at image i) image_size region plan).0 ≡ ElfStatus.ok
      → Planned image_size region entry
          (headers ++ (phdr_at image i ∷ []))
          (add_segment plan (phdr_at image i))
  Planned-round headers i plan p e h =
      let ph = phdr_at image i in
      record {
        starts = p.starts;
        holds = add_segment-Holds plan headers ph p.holds (round-few ph image_size region plan e h);
        loadable = All-append (Loadable image_size region) headers ph p.loadable (
            (validate_load_segment-Loadable ph image_size region h1 h2 (phdr_at-Bounded image i)).0
              (ap is_ok (round-accepts ph image_size region plan e h)));
      }

  Result : List Phdr → ElfStatus × ProcessImagePlan → Type 0
  Result headers r = Planned image_size region entry headers r.1 × (0 < length headers)

  Result-eq :
      {xs ys : List Phdr} {r q : ElfStatus × ProcessImagePlan}
      → xs ≡ ys
      → r ≡ q
      → Result xs r
      → Result ys q
  Result-eq {xs} {ys} {r} {q} ex er result =
      subst (λ zs. Result zs q) ex (subst (λ t. Result xs t) er result)

  load_headers-takes :
      (n i : ℕ)
      → ((phdr_at image (phoff + i * sizeof_phdr)).p_type == pt_load) ≡ true
      → load_headers image phoff (suc n) i
        ≡ phdr_at image (phoff + i * sizeof_phdr) ∷ load_headers image phoff n (i + 1)
  unfolding load_headers
  load_headers-takes n i e = rw e refl

  load_headers-skips :
      (n i : ℕ)
      → ((phdr_at image (phoff + i * sizeof_phdr)).p_type == pt_load) ≡ false
      → load_headers image phoff (suc n) i ≡ load_headers image phoff n (i + 1)
  unfolding load_headers
  load_headers-skips n i e = rw e refl

  -- A loop that succeeds has gone on in each round.
  loop-goes_on :
      (n i : ℕ) (plan : ProcessImagePlan)
      → is_ok (plan_segments image image_size region phoff (suc n) i plan).0 ≡ true
      → let round = plan_segment (phdr_at image (phoff + i * sizeof_phdr)) image_size region plan in
        (round.0 ≡ ElfStatus.ok)
        × (plan_segments image image_size region phoff (suc n) i plan
            ≡ plan_segments image image_size region phoff n (i + 1) round.1)
  unfolding plan_segments
  loop-goes_on n i plan h =
      let round = plan_segment (phdr_at image (phoff + i * sizeof_phdr)) image_size region plan in
      go_on-ok round.0 round (plan_segments image image_size region phoff n (i + 1) round.1) refl h

  loop-ends :
      (i : ℕ) (plan : ProcessImagePlan)
      → is_ok (plan_segments image image_size region phoff zero i plan).0 ≡ true
      → (0 < plan.segment_count)
        × (plan_segments image image_size region phoff zero i plan ≡ (ElfStatus.ok, plan))
  unfolding plan_segments
  loop-ends i plan h = (ground arith, ground arith)

  loop-Planned :
      (n i : ℕ) (headers : List Phdr) (plan : ProcessImagePlan)
      → Planned image_size region entry headers plan
      → is_ok (plan_segments image image_size region phoff n i plan).0 ≡ true
      → Result
          (headers ++ load_headers image phoff n i)
          (plan_segments image image_size region phoff n i plan)
  unfolding load_headers Result
  loop-Planned zero i headers plan p h =
      let l = loop-ends i plan h in
      Result-eq (sym (append_nil headers)) (sym l.1) (p, omega (arith, l.0, p.holds.count))
  loop-Planned (suc n) i headers plan p h =
      let ph = phdr_at image (phoff + i * sizeof_phdr) in
      let g = loop-goes_on n i plan h in
      let left =
        λ (q : ProcessImagePlan). plan_segments image image_size region phoff n (i + 1) q in
      elim (Bool-cases (ph.p_type == pt_load)) [
        | inl e ↦
            let er =
              g.1
              ∙ ap (λ (r : ElfStatus × ProcessImagePlan). left r.1)
                  (round-adds ph image_size region plan e g.0) in
            Result-eq
              (append_assoc headers ph (load_headers image phoff n (i + 1))
                ∙ ap (λ hs. headers ++ hs) (sym (load_headers-takes n i e)))
              (sym er)
              (loop-Planned n (i + 1) (headers ++ (ph ∷ [])) (add_segment plan ph)
                (Planned-round headers (phoff + i * sizeof_phdr) plan p e g.0)
                (ap (λ r. is_ok r.0) (sym er) ∙ h))
        | inr e ↦
            let er =
              g.1
              ∙ ap (λ (r : ElfStatus × ProcessImagePlan). left r.1)
                  (round-skips ph image_size region plan e) in
            Result-eq (ap (λ hs. headers ++ hs) (sym (load_headers-skips n i e))) (sym er)
              (loop-Planned n (i + 1) headers plan p (ap (λ r. is_ok r.0) (sym er) ∙ h))
      ]

-- What an accepted image gives.
pub record Accepted (image : List ℕ) (image_size : ℕ) (region : UserRegion)
    (plan : ProcessImagePlan) : Type 0 where
  pub header : validate_header (ehdr_at image 0) image_size region ≡ ElfStatus.ok
  pub starts : plan.entry ≡ (ehdr_at image 0).e_entry
  pub entry_inside : (region.base ≤ plan.entry) × (plan.entry < region.limit)
  pub holds : Holds plan (load_headers image (ehdr_at image 0).e_phoff (ehdr_at image 0).e_phnum 0)
  pub loadable :
      All
        (Loadable image_size region)
        (load_headers image (ehdr_at image 0).e_phoff (ehdr_at image 0).e_phnum 0)
  pub some_segment : 0 < plan.segment_count

header-entry :
    (eh : Ehdr) (image_size : ℕ) (region : UserRegion)
    → validate_header eh image_size region ≡ ElfStatus.ok
    → is_ok (validate_user_range region eh.e_entry 1) ≡ true
unfolding validate_header
header-entry eh image_size region h = ground arith

after_header-ok :
    (rc : ElfStatus) (done : ElfStatus × ProcessImagePlan)
    → is_ok (after_header rc done).0 ≡ true
    → rc ≡ ElfStatus.ok
after_header-ok rc done h = ground arith

abbrev segments_of : List ℕ → ℕ → UserRegion → ElfStatus × ProcessImagePlan
segments_of image image_size region =
    let eh = ehdr_at image 0 in
    plan_segments image image_size region eh.e_phoff eh.e_phnum 0
      (record zero_plan { entry = eh.e_entry })

load-after_header :
    (image : List ℕ) (image_size : ℕ) (region : UserRegion) (out : ProcessImagePlan)
    → is_ok (plan_load (some image) image_size region (some out)).0 ≡ true
    → plan_load (some image) image_size region (some out)
      ≡ after_header
          (validate_header (ehdr_at image 0) image_size region)
          (segments_of image image_size region)
unfolding plan_load
load-after_header image image_size region out h = elim (Bool-cases (ltb image_size sizeof_ehdr)) [
  | inl e ↦ absurd (ground (arith, e))
  | inr e ↦ rw e refl
]

-- When `m11_elf64_plan_load` accepts an image, the entry point lies in the user region, and the
-- plan holds, in the order of the program header table, exactly its load headers, of which there
-- is at least one and are at most eight: each has its bytes in the image and its memory, which is
-- not empty, in the region, and no segment may be both written and executed.
pub plan_load-Accepted :
    (image : List ℕ) (image_size : ℕ) (region : UserRegion) (out : ProcessImagePlan)
    → image_size < 2 ^ 64
    → region.limit < 2 ^ 64
    → (plan_load (some image) image_size region (some out)).0 ≡ ElfStatus.ok
    → (plan : ProcessImagePlan) × ((plan_load (some image) image_size region (some out)).1
        ≡ some plan)
      × Accepted image image_size region plan
unfolding ehdr_at read_le All Result
plan_load-Accepted image image_size region out h1 h2 h =
    let eh = ehdr_at image 0 in
    let e = load-after_header image image_size region out (ap is_ok h) in
    let hv =
      after_header-ok (validate_header eh image_size region) (segments_of image image_size region)
        (ap (λ r. is_ok r.0) (sym e) ∙ ap is_ok h) in
    let e2 = e ∙ ap (λ rc. after_header rc (segments_of image image_size region)) hv in
    let entry =
      (validate_user_range-contains region eh.e_entry 1 h2 (read_le-lt 8 image 24) (omega arith)).0
        (header-entry eh image_size region hv) in
    let start : ProcessImagePlan = record zero_plan { entry = eh.e_entry } in
    let result =
      loop-Planned image image_size region eh.e_phoff eh.e_entry h1 h2 eh.e_phnum 0 [] start
        (record {
          starts = refl;
          holds = record { count = refl; few = omega arith; entries = refl };
          loadable = tt;
        })
        (ap (λ r. is_ok r.0) (sym e2) ∙ ap is_ok h) in
    (
      (segments_of image image_size region).1,
      ap (λ r. r.1) e2,
      record {
        header = hv;
        starts = result.0.starts;
        entry_inside = omega (arith, result.0.starts, entry.1, entry.2);
        holds = result.0.holds;
        loadable = result.0.loadable;
        some_segment = omega (arith, result.0.holds.count, result.1);
      },
    )
