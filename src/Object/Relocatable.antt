-- ===== src/Object/Relocatable.antt =====
-- src/object/artifact.rs: emit_elf64_relocatable, and what it promises of the code.
use aziky.Prelude.{
  ℕ, zero, suc, ◌+◌, ◌^◌, ◌<◌, ◌≡◌, arith, false, Option, some, ◌>>=◌, List, [], ◌∷◌, length, max,
  set, Returns, Returns-result,
}
use aziky.Object.Bytes.{push_uleb-read_uleb, align_up}
use aziky.Object.Slices.{slice}
use aziky.Object.Sections.{
  Section, section, null_section, finish_elf, layout_elf_sections, place_section, place_sections,
  section_name_table,
}
use aziky.Object.Files.{place_all-Stands}
use aziky.Object.Metadata.{codes, DebugSource, ArtifactMetadata, aziky_note}
use aziky.Object.Dwarf.{DebugSections, new_debug_sections, dwarf_line, file_rows, elf_symbols}

abbrev relocatable_sections : List ℕ → ArtifactMetadata → DebugSections → List Section
relocatable_sections code metadata debug =
    let symbols = elf_symbols (length code) metadata false in
    null_section
    ∷ section (codes ".text") 1 6 16 code
    ∷ section (codes ".note.aziky") 7 0 4 (aziky_note metadata)
    ∷ section (codes ".debug_abbrev") 1 0 1 debug.abbreviations
    ∷ section (codes ".debug_info") 1 0 1 debug.info
    ∷ section (codes ".debug_line") 1 0 1 debug.line
    ∷ section (codes ".debug_str") 1 0 1 debug.strings
    ∷ (record {
      name = codes ".symtab";
      ty = 2;
      flags = 0;
      align = 8;
      entsize = 24;
      link = 8;
      info = symbols.2;
      bytes = symbols.1;
      offset = 0;
      address = 0;
    })
    ∷ section (codes ".strtab") 3 0 1 symbols.0
    ∷ section (codes ".shstrtab") 3 0 1 []
    ∷ []

unfoldable pub emit_elf64_relocatable : List ℕ → ArtifactMetadata → Option (List ℕ)
emit_elf64_relocatable code metadata = do
  debug ← new_debug_sections (length code) metadata
  finish_elf 1 (relocatable_sections code metadata debug) 9 [] 0

file_rows-returns :
    (file count : ℕ) → file + count < 2 ^ 64 → Returns (file_rows file count) (λ _. Unit)
unfolding file_rows
file_rows-returns file zero h = tt
file_rows-returns file (suc count) h =
    let (number, written, _, _) = push_uleb-read_uleb 9 file (omega arith) in
    let (rest, rows, _) =
      Returns-result (file_rows (suc file) count) _
        (file_rows-returns (suc file) count (omega arith)) in
    rw (written, rows) tt

dwarf_line-returns :
    (code_len : ℕ) (sources : List DebugSource)
    → code_len < 2 ^ 64
    → length sources + 2 < 2 ^ 64
    → Returns (dwarf_line code_len sources) (λ _. Unit)
unfolding dwarf_line
dwarf_line-returns code_len sources small few =
    let (rows, p, _) =
      Returns-result (file_rows 1 (max (length sources) 1)) _
        (file_rows-returns 1 (max (length sources) 1) (omega arith)) in
    let (advance, q, _, _) = push_uleb-read_uleb 9 code_len (omega arith) in rw (p, q) tt

new_debug_sections-returns :
    (code_len : ℕ) (metadata : ArtifactMetadata)
    → code_len < 2 ^ 64
    → length metadata.sources + 2 < 2 ^ 64
    → Returns (new_debug_sections code_len metadata) (λ _. Unit)
unfolding new_debug_sections
new_debug_sections-returns code_len metadata small few =
    let (line, lined, _) =
      Returns-result (dwarf_line code_len metadata.sources) _
        (dwarf_line-returns code_len metadata.sources small few) in
    rw lined tt

object_file :
    (code : List ℕ) (metadata : ArtifactMetadata) (debug : DebugSections)
    → (file : List ℕ) × (finish_elf 1 (relocatable_sections code metadata debug) 9 [] 0 ≡ some file)
      × (slice 64 (length code) file ≡ code)
unfolding finish_elf layout_elf_sections place_sections place_section align_up section
object_file code metadata debug =
    let sections = relocatable_sections code metadata debug in
    let strings = section (codes ".shstrtab") 3 0 1 [] in
    let named = set sections 9 (record strings { bytes = (section_name_table sections).0 }) in
    let (file, written, stands) = place_all-Stands 1 named 9 [] 0 (omega arith) tt in
    (file, written, stands.0)

-- For code and sources that a 64-bit machine holds, the compiler's object file is written, and it
-- holds the code behind its header.
pub emit_elf64_relocatable-slice :
    (code : List ℕ) (metadata : ArtifactMetadata)
    → length code < 2 ^ 64
    → length metadata.sources + 2 < 2 ^ 64
    → (file : List ℕ) × (emit_elf64_relocatable code metadata ≡ some file)
      × (slice 64 (length code) file ≡ code)
unfolding emit_elf64_relocatable
emit_elf64_relocatable-slice code metadata small few =
    let (debug, made, _) =
      Returns-result (new_debug_sections (length code) metadata) _
        (new_debug_sections-returns (length code) metadata small few) in
    let (file, written, stands) = object_file code metadata debug in (file, rw made written, stands)
