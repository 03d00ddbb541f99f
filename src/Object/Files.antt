-- ===== src/Object/Files.antt =====
-- src/object/artifact.rs: finish_elf lays the sections out and writes the file.
use aziky.Prelude.{
  zero, suc, ap, ℕ, ◌+◌, ◌*◌, ◌<◌, ◌≡◌, refl, sym, ◌∙◌, arith, Bool, false, some, List, [], ◌∷◌,
  All, length, length-append, max, some_is, get_elem?, get_elem?-lt, set, length-set,
}
use mathlib.Core.Path.{subst}
use aziky.Object.Bytes.{align_up, to_le_bytes}
use aziky.Object.Slices.{slice}
use aziky.Object.Headers.{AreHeaded, finish_elf_prelaid-AreHeaded}
use aziky.Object.Sections.{
  Section, place_section, place_sections, place_all, finish_elf_prelaid, finish_elf,
  layout_elf_sections, section_name_table, push_names, push_string, behind_first, concat,
  elf_header_size, elf_program_header_size,
}
use aziky.Object.Layout.{Laid, Stands, place_sections-Laid, finish_elf_prelaid-Stands}

-- A section that has its place: all but its offset and its address is as given.
abbrev pub IsPlaced : Section → Section → Type 0
IsPlaced given placed = placed ≡ record given { offset = placed.offset; address = placed.address }

abbrev pub ArePlaced : List Section → List Section → Type 0
ArePlaced [] [] = Unit
ArePlaced (given ∷ givens) (placed ∷ rest) = IsPlaced given placed × ArePlaced givens rest
ArePlaced _ _ = ⊥

place_sections-ArePlaced :
    (allocate : Bool) (position : ℕ) (sections : List Section)
    → ArePlaced sections (place_sections allocate position sections)
unfolding place_sections place_section
place_sections-ArePlaced allocate position [] = tt
place_sections-ArePlaced allocate position (section ∷ sections) = (
  refl,
  place_sections-ArePlaced allocate (align_up position (max section.align 1) + length section.bytes)
      sections,
)

place_all-ArePlaced :
    (allocate : Bool) (position : ℕ) (sections : List Section)
    → ArePlaced sections (place_all allocate position sections)
place_all-ArePlaced allocate position [] = tt
place_all-ArePlaced allocate position (first ∷ sections) =
    (refl, place_sections-ArePlaced allocate position sections)

-- The offsets of the names do not depend on the places or the bytes.
push_names-place_sections :
    (allocate : Bool) (position : ℕ) (table : List ℕ) (sections : List Section)
    → push_names table (place_sections allocate position sections) ≡ push_names table sections
unfolding push_names place_sections place_section
push_names-place_sections allocate position table [] = refl
push_names-place_sections allocate position table (section ∷ sections) =
    ap (λ rest. (rest.0, (push_string table section.name).1 ∷ rest.1))
      (push_names-place_sections allocate
        (align_up position (max section.align 1) + length section.bytes)
        (push_string table section.name).0 sections)

push_names-place_all :
    (allocate : Bool) (position : ℕ) (table : List ℕ) (sections : List Section)
    → push_names table (place_all allocate position sections) ≡ push_names table sections
unfolding push_names
push_names-place_all allocate position table [] = refl
push_names-place_all allocate position table (first ∷ sections) =
    ap (λ rest. (rest.0, (push_string table first.name).1 ∷ rest.1))
      (push_names-place_sections allocate position (push_string table first.name).0 sections)

push_names-set :
    (table bytes : List ℕ) (sections : List Section) (i : ℕ) (section : Section)
    → get_elem? sections i ≡ some section
    → push_names table (set sections i (record section { bytes = bytes }))
      ≡ push_names table sections
unfolding push_names
push_names-set table bytes [] i section found = refl
push_names-set table bytes (first ∷ sections) zero section found =
    ap
      (λ (name : List ℕ).
        let rest = push_names (push_string table name).0 sections in
        (rest.0, (push_string table name).1 ∷ rest.1))
      (ap (λ (s : Section). s.name) (sym (some_is found)))
push_names-set table bytes (first ∷ sections) (suc i) section found =
    ap (λ rest. (rest.0, (push_string table first.name).1 ∷ rest.1))
      (push_names-set (push_string table first.name).0 bytes sections i section found)

length-concat :
    (headers : List (List ℕ))
    → All (λ header. length header ≡ elf_program_header_size) headers
    → length (concat headers) ≡ length headers * elf_program_header_size
length-concat [] h = omega arith
length-concat (header ∷ headers) (size, h) =
    omega (arith, length-append header (concat headers), length-concat headers h)

-- Placed sections are laid out behind the position, and the file holds their bytes.
pub place_all-Stands :
    (ty : ℕ) (sections : List Section) (shstrndx : ℕ) (program_headers : List (List ℕ)) (entry : ℕ)
    → 0 < length sections
    → All (λ header. length header ≡ elf_program_header_size) program_headers
    → (file : List ℕ) × (finish_elf_prelaid ty
          (place_all false
            (elf_header_size + length program_headers * elf_program_header_size)
            sections)
          shstrndx
          program_headers
          entry
        ≡ some file)
      × All (Stands file) (
          behind_first (
            place_all false
              (elf_header_size + length program_headers * elf_program_header_size)
              sections))
place_all-Stands ty [] shstrndx program_headers entry h sized = absurd (omega arith)
place_all-Stands ty (first ∷ sections) shstrndx program_headers entry h sized =
    let position = elf_header_size + length program_headers * elf_program_header_size in
    finish_elf_prelaid-Stands ty first (place_sections false position sections) shstrndx
      program_headers entry
      (subst (λ k. Laid (elf_header_size + k) (place_sections false position sections))
        (sym (length-concat program_headers sized)) (place_sections-Laid false position sections))

place_all-Laid :
    (position : ℕ) (sections : List Section)
    → Laid position (behind_first (place_all false position sections))
place_all-Laid position [] = tt
place_all-Laid position (first ∷ sections) = place_sections-Laid false position sections

place_all-AreHeaded :
    (ty : ℕ) (sections : List Section) (shstrndx : ℕ) (program_headers : List (List ℕ)) (entry : ℕ)
    → 1 < length sections
    → All (λ header. length header ≡ elf_program_header_size) program_headers
    → (shoff : ℕ) × (file : List ℕ) × (finish_elf_prelaid ty
          (place_all false
            (elf_header_size + length program_headers * elf_program_header_size)
            sections)
          shstrndx
          program_headers
          entry
        ≡ some file)
      × (slice 40 8 file ≡ to_le_bytes 8 shoff)
      × AreHeaded file shoff
          (section_name_table (
            place_all false
              (elf_header_size + length program_headers * elf_program_header_size)
              sections)).1
          0
          (place_all false
            (elf_header_size + length program_headers * elf_program_header_size)
            sections)
unfolding place_sections
place_all-AreHeaded ty [] shstrndx program_headers entry h sized = absurd (omega arith)
place_all-AreHeaded ty (first ∷ []) shstrndx program_headers entry h sized = absurd (omega arith)
place_all-AreHeaded ty (first ∷ second ∷ sections) shstrndx program_headers entry h sized =
    let position = elf_header_size + length program_headers * elf_program_header_size in
    finish_elf_prelaid-AreHeaded ty first _ _ shstrndx program_headers entry (
      subst (λ k. Laid (elf_header_size + k) (place_sections false position (second ∷ sections)))
        (sym (length-concat program_headers sized))
        (place_sections-Laid false position (second ∷ sections)))

-- With program headers of their size, an index in range and a section behind the first, finish_elf
-- returns a file. The bytes 40 to 48 of the file say where the headers of the sections begin. These
-- stand there behind each other and give for each section the offset of its name in the table of names
-- and what was given, with that table as the bytes of the section at the index, and an address and an
-- offset. The offsets behind the first are aligned as given and leave no overlap, behind the headers in
-- front, and the file holds the bytes of each of these sections at its offset.
pub finish_elf-Stands :
    (ty : ℕ) (sections : List Section) (shstrndx : ℕ) (program_headers : List (List ℕ)) (entry : ℕ)
    → shstrndx < length sections
    → 1 < length sections
    → All (λ header. length header ≡ elf_program_header_size) program_headers
    → (strings : Section) × (placed : List Section) × (shoff : ℕ) × (file : List ℕ) × (get_elem?
          sections shstrndx
        ≡ some strings)
      × (finish_elf ty sections shstrndx program_headers entry ≡ some file)
      × ArePlaced
          (set sections shstrndx (record strings { bytes = (section_name_table sections).0 }))
          placed
      × (slice 40 8 file ≡ to_le_bytes 8 shoff)
      × AreHeaded file shoff (section_name_table sections).1 0 placed
      × Laid
          (elf_header_size + length program_headers * elf_program_header_size)
          (behind_first placed)
      × All (Stands file) (behind_first placed)
unfolding finish_elf layout_elf_sections section_name_table
finish_elf-Stands ty sections shstrndx program_headers entry small more sized =
    let position = elf_header_size + length program_headers * elf_program_header_size in
    let (strings, found) = get_elem?-lt sections shstrndx small in
    let table = (section_name_table sections).0 in
    let named = set sections shstrndx (record strings { bytes = table }) in
    let size = length-set sections shstrndx (record strings { bytes = table }) in
    let (file, written, stands) =
      place_all-Stands ty named shstrndx program_headers entry (omega (arith, size)) sized in
    let (shoff, file', written', told, headed) =
      place_all-AreHeaded ty named shstrndx program_headers entry (omega (arith, size)) sized in
    let names =
      push_names-place_all false position (0 ∷ []) named
      ∙ push_names-set (0 ∷ []) table sections shstrndx strings found in
    let same : file' ≡ file = some_is (sym written' ∙ written) in
    (
      strings,
      place_all false position named,
      shoff,
      file,
      found,
      rw found written,
      place_all-ArePlaced false position named,
      subst (λ f. slice 40 8 f ≡ to_le_bytes 8 shoff) same told,
      subst (λ names. AreHeaded file shoff names.1 0 (place_all false position named)) names
          (subst
            (λ f.
              AreHeaded f shoff (section_name_table (place_all false position named)).1 0
                (place_all false position named))
            same headed),
      place_all-Laid position named,
      stands,
    )
