-- ===== src/Object/Headers.antt =====
-- src/object/artifact.rs: the file tells where the headers of its sections stand, and they what was
-- given.
use mathlib.Core.Path.{subst}
use mathlib.Core.List.{append-nil, append_assoc}
use aziky.Prelude.{
  ℕ, zero, suc, ◌+◌, ◌%◌, ◌^◌, ◌≤◌, ◌≡◌, refl, sym, ap, ◌∙◌, arith, some, List, [], ◌∷◌, ◌++◌,
  length, length-append, get_elem?, get_elem?-lt,
}
use aziky.Object.Bytes.{to_le_bytes, align_up}
use aziky.Object.Slices.{slice, drop, resize, length-resize, slice-append, slice-resize}
use aziky.Object.Sections.{
  Section, append_data, append_headers, append_section_header, section_header, write_elf_header,
  concat, data_end, finish_elf_prelaid, section_name_table, push_names, elf_header_size,
}
use aziky.Object.Layout.{
  Laid, append_data-front, length-write_elf_header, length-push_names, align_up-le,
}

slice-behind :
    (at k size : ℕ) (xs ys : List ℕ)
    → at ≡ length xs + k
    → slice at size (xs ++ ys) ≡ slice k size ys
unfolding slice drop
slice-behind at k size [] ys e = ap (λ j. slice j size ys) (omega arith)
slice-behind zero k size (x ∷ xs) ys e = absurd (omega arith)
slice-behind (suc at) k size (x ∷ xs) ys e = slice-behind at k size xs ys (omega arith)

-- The header of a section at an index of a file, field by field: its type, flags, address, offset,
-- size, link, info, alignment and entry size.
abbrev pub IsHeaded : List ℕ → ℕ → Section → Type 0
IsHeaded file at section =
    (slice (at + 4) 4 file ≡ to_le_bytes 4 section.ty)
    × (slice (at + 8) 8 file ≡ to_le_bytes 8 section.flags)
    × (slice (at + 16) 8 file ≡ to_le_bytes 8 section.address)
    × (slice (at + 24) 8 file ≡ to_le_bytes 8 section.offset)
    × (slice (at + 32) 8 file ≡ to_le_bytes 8 (length section.bytes))
    × (slice (at + 40) 4 file ≡ to_le_bytes 4 section.link)
    × (slice (at + 44) 4 file ≡ to_le_bytes 4 section.info)
    × (slice (at + 48) 8 file ≡ to_le_bytes 8 section.align)
    × (slice (at + 56) 8 file ≡ to_le_bytes 8 section.entsize)

-- The headers of sections behind each other, 64 bytes each, that begin with the offsets of the
-- sections' names, in order from an index on.
abbrev pub AreHeaded : List ℕ → ℕ → List ℕ → ℕ → List Section → Type 0
AreHeaded file at names index [] = Unit
AreHeaded file at names index (section ∷ sections) =
    ((name : ℕ) × (get_elem? names index ≡ some name) × (slice at 4 file ≡ to_le_bytes 4 name))
    × IsHeaded file at section
    × AreHeaded file (at + 64) names (suc index) sections

header-IsHeaded :
    (name : ℕ) (section : Section) (out added : List ℕ)
    → IsHeaded (out ++ (section_header name section ++ added)) (length out) section
unfolding section_header to_le_bytes slice drop
header-IsHeaded name section out added = (
  slice-behind _ 4 4 out _ refl,
  slice-behind _ 8 8 out _ refl,
  slice-behind _ 16 8 out _ refl,
  slice-behind _ 24 8 out _ refl,
  slice-behind _ 32 8 out _ refl,
  slice-behind _ 40 4 out _ refl,
  slice-behind _ 44 4 out _ refl,
  slice-behind _ 48 8 out _ refl,
  slice-behind _ 56 8 out _ refl,
)

header-name :
    (name : ℕ) (section : Section) (out added : List ℕ)
    → slice (length out) 4 (out ++ (section_header name section ++ added)) ≡ to_le_bytes 4 name
unfolding section_header to_le_bytes slice drop
header-name name section out added = slice-behind (length out) 0 4 out _ (omega arith)

length-section_header : (name : ℕ) (section : Section) → length (section_header name section) ≡ 64
unfolding section_header to_le_bytes
length-section_header name section = refl

-- Headers are appended, and each stands where it is looked for.
append_headers-AreHeaded :
    (out names : List ℕ) (index : ℕ) (sections : List Section)
    → index + length sections ≤ length names
    → (added : List ℕ) × (append_headers out names index sections ≡ some (out ++ added))
      × AreHeaded (out ++ added) (length out) names index sections
unfolding append_headers append_section_header
append_headers-AreHeaded out names index [] h = ([], ap some (sym (append-nil out)), tt)
append_headers-AreHeaded out names index (section ∷ sections) h =
    let (name, found) = get_elem?-lt names index (omega arith) in
    let header = section_header name section in
    let (added, e, headed) =
      append_headers-AreHeaded (out ++ header) names (suc index) sections (omega arith) in
    let behind : length (out ++ header) ≡ length out + 64 =
      omega (arith, length-append out header, length-section_header name section) in
    let moved = append_assoc out header added in
    (
      header ++ added,
      rw found (e ∙ ap some moved),
      (
        (name, found, header-name name section out added),
        header-IsHeaded name section out added,
        subst (λ at. AreHeaded (out ++ (header ++ added)) at names (suc index) sections) behind
            (subst (λ file. AreHeaded file (length (out ++ header)) names (suc index) sections)
              moved headed),
      ),
    )

-- The file header says where the headers of the sections begin, unless the file ends before.
shoff-slice :
    (ty entry phnum shoff shnum shstrndx : ℕ) (behind content added : List ℕ)
    → content ≡ write_elf_header ty entry phnum shoff shnum shstrndx ++ behind
    → 64 ≤ shoff
    → slice 40 8 (resize shoff content ++ added) ≡ to_le_bytes 8 shoff
unfolding write_elf_header to_le_bytes slice drop
shoff-slice ty entry phnum shoff shnum shstrndx behind content added e big =
    let size = length-append (write_elf_header ty entry phnum shoff shnum shstrndx) behind in
    let full = length-write_elf_header ty entry phnum shoff shnum shstrndx in
    slice-append 40 8 (resize shoff content) added (omega (arith, length-resize shoff content))
    ∙ slice-resize 40 8 shoff content (omega arith) (omega (arith, ap length e, size, full))
    ∙ ap (slice 40 8) e

-- A file whose sections are laid out behind the headers is written, its header says where the
-- headers of the sections are, and they stand there.
pub finish_elf_prelaid-AreHeaded :
    (ty : ℕ) (first second : Section) (sections : List Section) (shstrndx : ℕ)
    (program_headers : List (List ℕ)) (entry : ℕ)
    → Laid (elf_header_size + length (concat program_headers)) (second ∷ sections)
    → (shoff : ℕ) × (file : List ℕ) × (finish_elf_prelaid ty
          (first ∷ second ∷ sections)
          shstrndx
          program_headers
          entry
        ≡ some file)
      × (slice 40 8 file ≡ to_le_bytes 8 shoff)
      × AreHeaded file shoff
          (section_name_table (first ∷ second ∷ sections)).1
          0
          (first ∷ second ∷ sections)
unfolding finish_elf_prelaid section_name_table data_end
finish_elf_prelaid-AreHeaded ty first second sections shstrndx program_headers entry laid =
    let all = first ∷ second ∷ sections in
    let shoff = align_up (data_end all) 8 in
    let phnum = length program_headers % 2 ^ 16 in
    let header = write_elf_header ty entry phnum shoff (length all % 2 ^ 16) (shstrndx % 2 ^ 16) in
    let headers = header ++ concat program_headers in
    let content = append_data headers (second ∷ sections) in
    let size : length headers ≡ elf_header_size + length (concat program_headers) =
      length-append header (concat program_headers)
      ∙ ap (λ k. k + length (concat program_headers))
          (length-write_elf_header ty entry _ shoff _ _) in
    let (grown, grows) =
      append_data-front headers (second ∷ sections)
        (subst (λ k. Laid k (second ∷ sections)) (sym size) laid) in
    let (added, e, headed) =
      append_headers-AreHeaded (resize shoff content) (push_names (0 ∷ []) all).1 0 all
        (omega (arith, length-push_names (0 ∷ []) all)) in
    let big : 64 ≤ shoff = omega (arith, align_up-le (data_end all) 8, laid.0) in
    (
      shoff,
      resize shoff content ++ added,
      e,
      shoff-slice ty entry phnum shoff (length all % 2 ^ 16) (shstrndx % 2 ^ 16)
          (concat program_headers ++ grown) content added
          (grows ∙ append_assoc header (concat program_headers) grown) big,
      subst (λ at. AreHeaded (resize shoff content ++ added) at (push_names (0 ∷ []) all).1 0 all)
          (length-resize shoff content) headed,
    )
