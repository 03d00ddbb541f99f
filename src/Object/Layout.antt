-- ===== src/Object/Layout.antt =====
-- src/object/artifact.rs: where the bytes of the sections stand in the file.
use native.Mathlib.Nat.{mul-mod_right, div-add-mod}
use mathlib.Core.List.{append-nil, append_assoc}
use aziky.Prelude.{
  ℕ, suc, ◌+◌, ◌-◌, ◌*◌, ◌/◌, ◌%◌, ◌^◌, ◌≤◌, ◌≡◌, refl, sym, ap, ◌∙◌, arith, Bool, ◌||◌, some, List,
  [], ◌∷◌, ◌++◌, All, All-map, length, length-append, max, get_elem?-lt, leb, ◌==◌, inl, inr,
  Bool-cases, or-true, ==_iff,
}
use mathlib.Core.Path.{subst}
use aziky.Object.Bytes.{align_up, to_le_bytes}
use aziky.Object.Slices.{
  slice, resize, length-resize, resize-grows, slice-append, slice-at_end, slice-resize,
}
use aziky.Object.Sections.{
  Section, place_section, place_sections, append_data, data_end, append_headers,
  append_section_header, section_header, finish_elf_prelaid, section_name_table, push_names,
  push_string, concat, write_elf_header, elf_header_size,
}

pub align_up-le : (value align : ℕ) → value ≤ align_up value align
unfolding align_up
align_up-le value align = elim (Bool-cases (leb align 1 || value % align == 0)) [
  | inl aligned ↦ rw aligned (omega arith)
  | inr not_aligned ↦ rw not_aligned (grind arith)
]

pub align_up-mod : (value align : ℕ) → 1 ≤ align → align_up value align % align ≡ 0
unfolding align_up
align_up-mod value align h = elim (Bool-cases (leb align 1 || value % align == 0)) [
  | inl aligned ↦ rw aligned (elim (or-true (leb align 1) (value % align == 0) aligned) [
    | inl one ↦ let e : align ≡ 1 = ground arith in rw e (omega arith)
    | inr whole ↦ (==_iff (value % align) 0).0 whole
  ])
  | inr not_aligned ↦
      let next : value + align - value % align ≡ align * suc (value / align) =
        grind (arith, div-add-mod value align) in
      rw (not_aligned, next) (mul-mod_right align (suc (value / align)))
]

-- Sections that begin at multiples of their alignment, each at or behind the end of the one before.
abbrev pub Laid : ℕ → List Section → Type 0
Laid position [] = Unit
Laid position (section ∷ sections) =
    (position ≤ section.offset)
    × (section.offset % max section.align 1 ≡ 0)
    × Laid (section.offset + length section.bytes) sections

pub place_sections-Laid :
    (allocate : Bool) (position : ℕ) (sections : List Section)
    → Laid position (place_sections allocate position sections)
unfolding place_sections place_section
place_sections-Laid allocate position [] = tt
place_sections-Laid allocate position (section ∷ sections) = (
  align_up-le position (max section.align 1),
  align_up-mod position (max section.align 1) (omega arith),
  place_sections-Laid allocate (align_up position (max section.align 1) + length section.bytes)
      sections,
)

-- The bytes of a section, in a file.
abbrev pub Stands : List ℕ → Section → Type 0
Stands file section = slice section.offset (length section.bytes) file ≡ section.bytes

end-Laid :
    (out : List ℕ) (section : Section) (sections : List Section)
    → Laid (section.offset + length section.bytes) sections
    → Laid (length (resize section.offset out ++ section.bytes)) sections
end-Laid out section sections laid =
    let end : length (resize section.offset out ++ section.bytes)
        ≡ section.offset + length section.bytes =
      length-append (resize section.offset out) section.bytes
      ∙ ap (λ k. k + length section.bytes) (length-resize section.offset out) in
    rw end laid

pub append_data-front :
    (out : List ℕ) (sections : List Section)
    → Laid (length out) sections
    → (added : List ℕ) × (append_data out sections ≡ out ++ added)
unfolding append_data
append_data-front out [] laid = ([], sym (append-nil out))
append_data-front out (section ∷ sections) (le, _, laid) =
    let (zeros, e) = resize-grows section.offset out le in
    let out' = resize section.offset out ++ section.bytes in
    let (added, rest) = append_data-front out' sections (end-Laid out section sections laid) in
    (
      zeros ++ (section.bytes ++ added),
      rest
          ∙ ap (λ o. (o ++ section.bytes) ++ added) e
          ∙ append_assoc (out ++ zeros) section.bytes added
          ∙ append_assoc out zeros (section.bytes ++ added),
    )

append_data-Stands :
    (out : List ℕ) (sections : List Section)
    → Laid (length out) sections
    → All (Stands (append_data out sections)) sections
unfolding append_data
append_data-Stands out [] laid = tt
append_data-Stands out (section ∷ sections) (le, _, laid) =
    let out' = resize section.offset out ++ section.bytes in
    let laid' = end-Laid out section sections laid in
    let (added, e) = append_data-front out' sections laid' in
    (
      ap (slice section.offset (length section.bytes))
            (e ∙ append_assoc (resize section.offset out) section.bytes added)
          ∙ slice-at_end section.offset (resize section.offset out) section.bytes added
              (length-resize section.offset out),
      append_data-Stands out' sections laid',
    )

abbrev end_at : Section → ℕ
end_at section = section.offset + length section.bytes

append_data-reaches :
    (out : List ℕ) (sections : List Section)
    → Laid (length out) sections
    → All (λ section. end_at section ≤ length (append_data out sections)) sections
unfolding append_data
append_data-reaches out [] laid = tt
append_data-reaches out (section ∷ sections) (le, _, laid) =
    let laid' = end-Laid out section sections laid in
    let out' = resize section.offset out ++ section.bytes in
    let (added, e) = append_data-front out' sections laid' in
    (
      omega (
        arith,
        ap length e,
        length-append out' added,
        length-append (resize section.offset out) section.bytes,
        length-resize section.offset out,
      ),
      append_data-reaches out' sections laid',
    )

data_end-reaches :
    (sections : List Section) → All (λ section. end_at section ≤ data_end sections) sections
unfolding data_end
data_end-reaches [] = tt
data_end-reaches (section ∷ sections) =
    (omega arith, All-map (λ s h. omega arith) sections (data_end-reaches sections))

-- Bytes that stand in a vector stand in the file that it is resized to and extended to.
Stands-file :
    (out added : List ℕ) (n : ℕ) (sections : List Section)
    → All (Stands out) sections
    → All (λ section. end_at section ≤ length out) sections
    → All (λ section. end_at section ≤ n) sections
    → All (Stands (resize n out ++ added)) sections
Stands-file out added n [] h k l = tt
Stands-file out added n (section ∷ sections) (h, hs) (k, ks) (l, ls) = (
  slice-append section.offset (length section.bytes) (resize n out) added
        (omega (arith, length-resize n out))
      ∙ slice-resize section.offset (length section.bytes) n out l k
      ∙ h,
  Stands-file out added n sections hs ks ls,
)

append_headers-front :
    (out names : List ℕ) (index : ℕ) (sections : List Section)
    → index + length sections ≤ length names
    → (added : List ℕ) × (append_headers out names index sections ≡ some (out ++ added))
unfolding append_headers append_section_header
append_headers-front out names index [] h = ([], ap some (sym (append-nil out)))
append_headers-front out names index (section ∷ sections) h =
    let (name, found) = get_elem?-lt names index (omega arith) in
    let header = section_header name section in
    let (added, e) =
      append_headers-front (out ++ header) names (suc index) sections (omega arith) in
    (header ++ added, rw found (e ∙ ap some (append_assoc out header added)))

pub length-push_names :
    (table : List ℕ) (sections : List Section)
    → length (push_names table sections).1 ≡ length sections
unfolding push_names
length-push_names table [] = refl
length-push_names table (section ∷ sections) =
    ap suc (length-push_names (push_string table section.name).0 sections)

pub length-write_elf_header :
    (ty entry phnum shoff shnum shstrndx : ℕ)
    → length (write_elf_header ty entry phnum shoff shnum shstrndx) ≡ 64
unfolding write_elf_header to_le_bytes
length-write_elf_header ty entry phnum shoff shnum shstrndx = refl

data_end-cons :
    (first : Section) (sections : List Section) → data_end sections ≤ data_end (first ∷ sections)
unfolding data_end
data_end-cons first sections = omega arith

-- A file whose sections are laid out behind the headers is written, and holds the bytes of each
-- section at the section's offset.
pub finish_elf_prelaid-Stands :
    (ty : ℕ) (first : Section) (sections : List Section) (shstrndx : ℕ)
    (program_headers : List (List ℕ)) (entry : ℕ)
    → Laid (elf_header_size + length (concat program_headers)) sections
    → (file : List ℕ) × (finish_elf_prelaid ty (first ∷ sections) shstrndx program_headers entry
        ≡ some file)
      × All (Stands file) sections
unfolding finish_elf_prelaid section_name_table
finish_elf_prelaid-Stands ty first sections shstrndx program_headers entry laid =
    let shoff = align_up (data_end (first ∷ sections)) 8 in
    let headers =
      write_elf_header ty entry (length program_headers % 2 ^ 16) shoff
        (length (first ∷ sections) % 2 ^ 16) (shstrndx % 2 ^ 16)
      ++ concat program_headers in
    let laid' : Laid (length headers) sections =
      subst (λ k. Laid k sections)
        (sym (
          length-append _ (concat program_headers)
          ∙ ap (λ k. k + length (concat program_headers))
              (length-write_elf_header ty entry _ shoff _ _)))
        laid in
    let out = append_data headers sections in
    let grows = data_end-cons first sections in
    let names = (push_names (0 ∷ []) (first ∷ sections)).1 in
    let (added, e) =
      append_headers-front (resize shoff out) names 0 (first ∷ sections)
        (omega (arith, length-push_names (0 ∷ []) (first ∷ sections))) in
    (
      resize shoff out ++ added,
      e,
      Stands-file out added shoff sections (append_data-Stands headers sections laid')
          (append_data-reaches headers sections laid')
          (All-map (λ s h. omega (arith, grows, align_up-le (data_end (first ∷ sections)) 8))
            sections (data_end-reaches sections)),
    )
