-- ===== src/Object/Sections.antt =====
-- src/object/artifact.rs: the sections of an ELF file, their layout and their headers.
use aziky.Prelude.{
  ℕ, suc, ◌+◌, ◌*◌, ◌%◌, ◌^◌, Bool, false, ◌&&◌, not, Option, some, ◌>>=◌, List, [], ◌∷◌, ◌++◌,
  length, max, bit_and, get_elem?, set, replicate, ltb, ◌==◌, if◌then◌else◌,
}
use aziky.Object.Bytes.{to_le_bytes, align_up}
use aziky.Object.Slices.{resize}

-- The name is the bytes of a text; `bytes` is the source's `data`.
pub record Section : Type 0 where
  pub name : List ℕ
  pub ty : ℕ
  pub flags : ℕ
  pub align : ℕ
  pub entsize : ℕ
  pub link : ℕ
  pub info : ℕ
  pub bytes : List ℕ
  pub offset : ℕ
  pub address : ℕ

abbrev pub elf_header_size : ℕ
elf_header_size = 64

abbrev elf_section_header_size : ℕ
elf_section_header_size = 64

abbrev pub elf_program_header_size : ℕ
elf_program_header_size = 56

abbrev shf_alloc : ℕ
shf_alloc = 2

unfoldable pub section : List ℕ → ℕ → ℕ → ℕ → List ℕ → Section
section name ty flags align bytes = record {
  name = name;
  ty = ty;
  flags = flags;
  align = align;
  entsize = 0;
  link = 0;
  info = 0;
  bytes = bytes;
  offset = 0;
  address = 0;
}

unfoldable pub null_section : Section
null_section = section [] 0 0 0 []

-- The table with the text and a byte 0 behind it, and where the text begins.
unfoldable pub push_string : List ℕ → List ℕ → List ℕ × ℕ
push_string table value = (table ++ (value ++ 0 ∷ []), length table % 2 ^ 32)

unfoldable pub push_names : List ℕ → List Section → List ℕ × List ℕ
push_names table [] = (table, [])
push_names table (section ∷ sections) =
    let pushed = push_string table section.name in
    let rest = push_names pushed.0 sections in (rest.0, pushed.1 ∷ rest.1)

unfoldable pub section_name_table : List Section → List ℕ × List ℕ
section_name_table sections = push_names (0 ∷ []) sections

unfoldable pub place_section : Bool → ℕ → Section → Section
place_section allocate_addresses offset section = record section {
  offset = offset;
  address = if allocate_addresses && not (bit_and section.flags shf_alloc == 0) then offset else 0;
}

-- The loop over the sections behind the first.
unfoldable pub place_sections : Bool → ℕ → List Section → List Section
place_sections allocate_addresses offset [] = []
place_sections allocate_addresses offset (section ∷ sections) =
    let offset' = align_up offset (max section.align 1) in
    place_section allocate_addresses offset' section
    ∷ place_sections allocate_addresses (offset' + length section.bytes) sections

abbrev pub place_all : Bool → ℕ → List Section → List Section
place_all allocate_addresses offset [] = []
place_all allocate_addresses offset (first ∷ sections) =
    first ∷ place_sections allocate_addresses offset sections

-- An index out of range panics.
unfoldable pub layout_elf_sections : List Section → ℕ → ℕ → Bool → Option (List Section)
layout_elf_sections sections start shstrndx allocate_addresses = do
  strings ← get_elem? sections shstrndx
  let named = set sections shstrndx (record strings { bytes = (section_name_table sections).0 })
  some (place_all allocate_addresses start named)

-- The ranges of the header in order, with zeros where none is written.
unfoldable pub write_elf_header : ℕ → ℕ → ℕ → ℕ → ℕ → ℕ → List ℕ
write_elf_header ty entry phnum shoff shnum shstrndx =
    (127 ∷ 69 ∷ 76 ∷ 70 ∷ 2 ∷ 1 ∷ 1 ∷ replicate 9 0)
    ++ (to_le_bytes 2 ty
        ++ (to_le_bytes 2 62
            ++ (to_le_bytes 4 1
                ++ (to_le_bytes 8 entry
                    ++ (to_le_bytes 8 (if ltb 0 phnum then elf_header_size else 0)
                        ++ (to_le_bytes 8 shoff
                            ++ (replicate 4 0
                                ++ (to_le_bytes 2 elf_header_size
                                    ++ (to_le_bytes 2 elf_program_header_size
                                        ++ (to_le_bytes 2 phnum
                                            ++ (to_le_bytes 2 elf_section_header_size
                                                ++ (to_le_bytes 2 shnum
                                                    ++ to_le_bytes 2 shstrndx))))))))))))

unfoldable pub section_header : ℕ → Section → List ℕ
section_header name section =
    to_le_bytes 4 name
    ++ (to_le_bytes 4 section.ty
        ++ (to_le_bytes 8 section.flags
            ++ (to_le_bytes 8 section.address
                ++ (to_le_bytes 8 section.offset
                    ++ (to_le_bytes 8 (length section.bytes)
                        ++ (to_le_bytes 4 section.link
                            ++ (to_le_bytes 4 section.info
                                ++ (to_le_bytes 8 section.align
                                    ++ to_le_bytes 8 section.entsize))))))))

unfoldable pub append_section_header : List ℕ → ℕ → Section → List ℕ
append_section_header out name section = out ++ section_header name section

-- The greatest end of a section's data.
unfoldable pub data_end : List Section → ℕ
data_end [] = 0
data_end (section ∷ sections) = max (section.offset + length section.bytes) (data_end sections)

-- `max().unwrap_or(ELF_HEADER_SIZE)`
abbrev pub end_of : List Section → ℕ
end_of [] = elf_header_size
end_of (section ∷ sections) = data_end (section ∷ sections)

unfoldable pub append_data : List ℕ → List Section → List ℕ
append_data out [] = out
append_data out (section ∷ sections) =
    append_data (resize section.offset out ++ section.bytes) sections

-- `name_offsets[index]` panics out of range.
unfoldable pub append_headers : List ℕ → List ℕ → ℕ → List Section → Option (List ℕ)
append_headers out name_offsets index [] = some out
append_headers out name_offsets index (section ∷ sections) = do
  name ← get_elem? name_offsets index
  append_headers (append_section_header out name section) name_offsets (suc index) sections

abbrev pub concat : List (List ℕ) → List ℕ
concat [] = []
concat (xs ∷ rest) = xs ++ concat rest

abbrev pub behind_first : List Section → List Section
behind_first [] = []
behind_first (first ∷ sections) = sections

-- The headers in front are written into zeros of their size.
unfoldable pub finish_elf_prelaid : ℕ → List Section → ℕ → List (List ℕ) → ℕ → Option (List ℕ)
finish_elf_prelaid ty sections shstrndx program_headers entry =
    let shoff = align_up (end_of sections) 8 in
    let headers =
      write_elf_header ty entry (length program_headers % 2 ^ 16) shoff (length sections % 2 ^ 16)
        (shstrndx % 2 ^ 16)
      ++ concat program_headers in
    append_headers (resize shoff (append_data headers (behind_first sections)))
      (section_name_table sections).1 0 sections

unfoldable pub finish_elf : ℕ → List Section → ℕ → List (List ℕ) → ℕ → Option (List ℕ)
finish_elf ty sections shstrndx program_headers entry = do
  placed ←
      layout_elf_sections sections
        (elf_header_size + length program_headers * elf_program_header_size) shstrndx false
  finish_elf_prelaid ty placed shstrndx program_headers entry
