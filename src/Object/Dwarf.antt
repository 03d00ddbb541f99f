-- ===== src/Object/Dwarf.antt =====
-- src/object/artifact.rs: the debug sections and the symbols of an object file.
use aziky.Prelude.{
  ℕ, zero, suc, ◌+◌, ◌-◌, ◌/◌, ◌%◌, ◌^◌, Bool, Option, some, ◌>>=◌, List, [], ◌∷◌, ◌++◌, length,
  max, replicate, ltb, if◌then◌else◌,
}
use aziky.Object.Bytes.{to_le_bytes, push_uleb}
use aziky.Object.Sections.{push_string}
use aziky.Object.Metadata.{codes, decimal, DebugSource, ArtifactMetadata}

-- A file of the table: its path, and zeros for its directory, time and length.
unfoldable pub file_table : List DebugSource → List ℕ
file_table [] = []
file_table (source ∷ sources) = source.path ++ (0 ∷ []) ++ (0 ∷ 0 ∷ 0 ∷ []) ++ file_table sources

abbrev files_or_default : List DebugSource → List ℕ
files_or_default [] = codes "<aziky>" ++ 0 ∷ 0 ∷ 0 ∷ 0 ∷ []
files_or_default (source ∷ sources) = file_table (source ∷ sources)

-- The loop over the files from the one given on: a row for each.
unfoldable pub file_rows : ℕ → ℕ → Option (List ℕ)
file_rows file zero = some []
file_rows file (suc count) = do
  number ← push_uleb 10 file
  rest ← file_rows (suc file) count
  some ((if ltb 1 file then 4 ∷ number else []) ++ (1 ∷ rest))

unfoldable pub line_header : List DebugSource → List ℕ
line_header sources =
    (1 ∷ 1 ∷ 1 ∷ 251 ∷ 14 ∷ 13 ∷ [])
    ++ (0 ∷ 1 ∷ 1 ∷ 1 ∷ 1 ∷ 0 ∷ 0 ∷ 0 ∷ 1 ∷ 0 ∷ 0 ∷ 1 ∷ [])
    ++ (0 ∷ [])
    ++ files_or_default sources
    ++ (0 ∷ [])

unfoldable pub dwarf_line : ℕ → List DebugSource → Option (List ℕ)
dwarf_line code_len sources = do
  let header = line_header sources
  rows ← file_rows 1 (max (length sources) 1)
  advance ← push_uleb 10 code_len
  let program = rows ++ (2 ∷ advance) ++ (0 ∷ 1 ∷ 1 ∷ [])
  let unit_len = 2 + 4 + length header + length program
  some (
      to_le_bytes 4 (unit_len % 2 ^ 32)
      ++ (to_le_bytes 2 4 ++ (to_le_bytes 4 (length header % 2 ^ 32) ++ (header ++ program))))

pub record DebugSections : Type 0 where
  pub abbreviations : List ℕ
  pub info : List ℕ
  pub line : List ℕ
  pub strings : List ℕ

abbrev unit_path : List DebugSource → List ℕ
unit_path [] = codes "<aziky>"
unit_path (source ∷ sources) = source.path

unfoldable pub new_debug_sections : ℕ → ArtifactMetadata → Option DebugSections
new_debug_sections code_len metadata = do
  let producer = push_string [] (codes "Aziky compiler")
  let unit_name = push_string producer.0 (unit_path metadata.sources)
  let info_body =
      to_le_bytes 2 4
      ++ to_le_bytes 4 0
      ++ (8 ∷ 1 ∷ [])
      ++ to_le_bytes 4 producer.1
      ++ to_le_bytes 2 32768
      ++ to_le_bytes 4 unit_name.1
      ++ to_le_bytes 4 0
  line ← dwarf_line code_len metadata.sources
  some (record {
    abbreviations = 1 ∷ 17 ∷ 0 ∷ 37 ∷ 14 ∷ 19 ∷ 5 ∷ 3 ∷ 14 ∷ 16 ∷ 23 ∷ 0 ∷ 0 ∷ 0 ∷ [];
    info = to_le_bytes 4 (length info_body % 2 ^ 32) ++ info_body;
    line = line;
    strings = unit_name.0;
  })

unfoldable pub append_elf_symbol : List ℕ → ℕ → ℕ → ℕ → ℕ → ℕ → ℕ → List ℕ
append_elf_symbol out name info other shndx value size =
    out
    ++ (to_le_bytes 4 name
        ++ (info ∷ other ∷ to_le_bytes 2 shndx ++ (to_le_bytes 8 value ++ to_le_bytes 8 size)))

-- The texts and the symbols so far, with one for each block.
unfoldable pub block_symbols_from : List (ℕ × ℕ × ℕ) → List ℕ → List ℕ → List ℕ × List ℕ
block_symbols_from [] strings symbols = (strings, symbols)
block_symbols_from ((block, start, end) ∷ blocks) strings symbols =
    let name = push_string strings (codes "aziky.block." ++ decimal block) in
    block_symbols_from blocks name.0 (append_elf_symbol symbols name.1 2 0 1 start (end - start))

unfoldable pub global_symbols_from : Bool → ℕ → List (List ℕ) → List ℕ → List ℕ → List ℕ × List ℕ
global_symbols_from leading_underscore code_len [] strings symbols = (strings, symbols)
global_symbols_from leading_underscore code_len (name ∷ names) strings symbols =
    let rendered = if leading_underscore then codes "_" ++ name else name in
    let offset = push_string strings rendered in
    global_symbols_from leading_underscore code_len names offset.0
      (append_elf_symbol symbols offset.1 18 0 1 0 code_len)

-- The texts, the symbols and the index of the first global symbol.
unfoldable pub elf_symbols : ℕ → ArtifactMetadata → Bool → List ℕ × List ℕ × ℕ
elf_symbols code_len metadata leading_underscore =
    let local = append_elf_symbol (replicate 24 0) 0 3 0 1 0 0 in
    let blocks = block_symbols_from metadata.block_symbols (0 ∷ []) local in
    let first_global = length blocks.1 / 24 % 2 ^ 32 in
    let globals =
      global_symbols_from leading_underscore code_len
        (codes "_start" ∷ codes "aziky_program_entry" ∷ []) blocks.0 blocks.1 in
    (globals.0, globals.1, first_global)
