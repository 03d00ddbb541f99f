-- ===== src/Object/Examples.antt =====
-- Tests of the object files, and the theorems at concrete inputs.
use aziky.Prelude.{
  true, false, ℕ, ◌+◌, ◌*◌, ◌^◌, ◌<◌, ◌≡◌, refl, arith, List, [], ◌∷◌, ◌++◌, some, All, length,
  get_elem?, set,
}
use aziky.Object.Bytes.{to_le_bytes, push_uleb, read_uleb, push_uleb-read_uleb, IsByte, align_up}
use aziky.Object.Slices.{drop, slice}
use aziky.Object.Metadata.{
  codes, escape_field, ArtifactMetadata, metadata_text, source_lines, declaration_lines,
  declaration_line, sort_declarations, insert_declaration, declaration_le, decimal, decimal_from,
  replace, text_le,
}
use aziky.Object.Escapes.{unescape, escape_field-unescape, IsFieldByte}
use aziky.Object.Relocatable.{emit_elf64_relocatable, emit_elf64_relocatable-slice}
use aziky.Object.Elf64.{emit_elf64_executable, load_image, load_image-emit_elf64_executable}
use aziky.Object.Sections.{
  Section, section, null_section, section_name_table, push_names, push_string, finish_elf,
  behind_first, elf_header_size, elf_program_header_size,
}
use aziky.Object.Layout.{Laid, Stands}
use aziky.Object.Files.{finish_elf-Stands, ArePlaced}
use aziky.Object.Headers.{AreHeaded}
use aziky.Object.Names.{until_zero, section_name_table-until_zero}

three_hundred : push_uleb 10 300 ≡ some (172 ∷ 2 ∷ [])
unfolding push_uleb
three_hundred = refl

aligned : align_up 121 16 ≡ 128
unfolding align_up
aligned = refl

push_uleb-read_uleb_example :
    (bytes : List ℕ) × (push_uleb 10 300 ≡ some bytes)
    × All IsByte bytes
    × ((behind : List ℕ) → read_uleb (bytes ++ behind) ≡ some (300, behind))
push_uleb-read_uleb_example = push_uleb-read_uleb 9 300 (omega arith)

load_image-emit_elf64_executable_example :
    load_image (emit_elf64_executable (144 ∷ 195 ∷ []))
    ≡ (record { entry = 4198400; address = 4198400; memory_size = 2; bytes = 144 ∷ 195 ∷ [] })
load_image-emit_elf64_executable_example =
    load_image-emit_elf64_executable (144 ∷ 195 ∷ []) (omega arith)

-- The first section, one named `.t` with two bytes of code, and the table of names.
abbrev small_object : List Section
small_object =
    null_section
    ∷ section (46 ∷ 116 ∷ []) 1 6 16 (144 ∷ 195 ∷ [])
    ∷ section (46 ∷ 115 ∷ []) 3 0 1 []
    ∷ []

finish_elf-Stands_example :
    (strings : Section) × (placed : List Section) × (shoff : ℕ) × (file : List ℕ) × (get_elem?
        small_object 2
      ≡ some strings)
    × (finish_elf 1 small_object 2 [] 0 ≡ some file)
    × ArePlaced
        (set small_object 2 (record strings { bytes = (section_name_table small_object).0 }))
        placed
    × (slice 40 8 file ≡ to_le_bytes 8 shoff)
    × AreHeaded file shoff (section_name_table small_object).1 0 placed
    × Laid (elf_header_size + 0 * elf_program_header_size) (behind_first placed)
    × All (Stands file) (behind_first placed)
finish_elf-Stands_example = finish_elf-Stands 1 small_object 2 [] 0 (omega arith) (omega arith) tt

short_table : length (section_name_table small_object).0 < 2 ^ 32
unfolding section_name_table push_names push_string section null_section
short_table = omega arith

section_name_table-until_zero_example :
    (offset : ℕ) × (get_elem? (section_name_table small_object).1 2 ≡ some offset)
    × (until_zero (drop offset (section_name_table small_object).0) ≡ 46 ∷ 115 ∷ [])
unfolding section null_section
section_name_table-until_zero_example =
    section_name_table-until_zero small_object
      (tt, ((omega arith, (omega arith, tt)), ((omega arith, (omega arith, tt)), tt))) short_table 2
      (section (46 ∷ 115 ∷ []) 3 0 1 []) refl

-- A tab between two letters.
escape_field-unescape_example :
    (unescape false (escape_field (97 ∷ 9 ∷ 98 ∷ [])) ≡ 97 ∷ 9 ∷ 98 ∷ [])
    × All IsFieldByte (escape_field (97 ∷ 9 ∷ 98 ∷ []))
escape_field-unescape_example = escape_field-unescape (97 ∷ 9 ∷ 98 ∷ [])

abbrev small_metadata : ArtifactMetadata
small_metadata = record {
  target = codes "x86_64";
  sources = (record { path = codes "a.az" }) ∷ [];
  declarations =
      (record {
        name = codes "main";
        kind = codes "fn";
        source_index = 0;
        line = 12;
        column = 1;
        is_public = true;
      })
      ∷ [];
  block_symbols = (0, 0, 2) ∷ [];
}

small_text :
    metadata_text small_metadata
    ≡ codes
        "aziky-metadata=1\ntarget=x86_64\nsource\t0\ta.az\ndeclaration\tfn\t1\t0\t12\t1\tmain\ta.az\n"
unfolding metadata_text source_lines declaration_lines declaration_line sort_declarations
    insert_declaration declaration_le decimal decimal_from replace text_le escape_field
small_text = refl

emit_elf64_relocatable-slice_example :
    (file : List ℕ) × (emit_elf64_relocatable (144 ∷ 195 ∷ []) small_metadata ≡ some file)
    × (slice 64 2 file ≡ 144 ∷ 195 ∷ [])
emit_elf64_relocatable-slice_example =
    emit_elf64_relocatable-slice (144 ∷ 195 ∷ []) small_metadata (omega arith) (omega arith)
