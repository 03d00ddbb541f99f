-- ===== src/Object/Elf64.antt =====
-- src/object/elf64.rs: the executable that is written for a program's code.
use mathlib.Core.List.{append-nil}
use aziky.Prelude.{
  ℕ, ◌+◌, ◌^◌, ◌<◌, ◌≤◌, ◌≡◌, refl, sym, ap, ◌∙◌, arith, true, List, [], ◌∷◌, ◌++◌, length,
  length-append, ltb, lt→ltb, if◌then◌else◌, replicate,
}
use aziky.Object.Bytes.{to_le_bytes, from_le_bytes, from_le_bytes-to_le_bytes}
use aziky.Object.Slices.{
  drop, slice, resize, length-resize, resize-grows, slice-append, slice-at_end,
}

pub record Elf64Header : Type 0 where
  pub e_ident : List ℕ
  pub e_type : ℕ
  pub e_machine : ℕ
  pub e_version : ℕ
  pub e_entry : ℕ
  pub e_phoff : ℕ
  pub e_shoff : ℕ
  pub e_flags : ℕ
  pub e_ehsize : ℕ
  pub e_phentsize : ℕ
  pub e_phnum : ℕ
  pub e_shentsize : ℕ
  pub e_shnum : ℕ
  pub e_shstrndx : ℕ

pub record ProgramHeader : Type 0 where
  pub p_type : ℕ
  pub p_flags : ℕ
  pub p_offset : ℕ
  pub p_vaddr : ℕ
  pub p_paddr : ℕ
  pub p_filesz : ℕ
  pub p_memsz : ℕ
  pub p_align : ℕ

abbrev elf_header_size : ℕ
elf_header_size = 64

abbrev program_header_size : ℕ
program_header_size = 56

abbrev elf_base_vaddr : ℕ
elf_base_vaddr = 4194304

abbrev code_offset : ℕ
code_offset = 4096

unfoldable pub new_header : ℕ → Elf64Header
new_header entry = record {
  e_ident = 127 ∷ 69 ∷ 76 ∷ 70 ∷ 2 ∷ 1 ∷ 1 ∷ 0 ∷ replicate 8 0;
  e_type = 2;
  e_machine = 62;
  e_version = 1;
  e_entry = entry;
  e_phoff = elf_header_size;
  e_shoff = 0;
  e_flags = 0;
  e_ehsize = elf_header_size;
  e_phentsize = program_header_size;
  e_phnum = 1;
  e_shentsize = 0;
  e_shnum = 0;
  e_shstrndx = 0;
}

-- Each range of the array begins where the one before it ends.
unfoldable pub header_to_bytes : Elf64Header → List ℕ
header_to_bytes header =
    header.e_ident
    ++ (to_le_bytes 2 header.e_type
        ++ (to_le_bytes 2 header.e_machine
            ++ (to_le_bytes 4 header.e_version
                ++ (to_le_bytes 8 header.e_entry
                    ++ (to_le_bytes 8 header.e_phoff
                        ++ (to_le_bytes 8 header.e_shoff
                            ++ (to_le_bytes 4 header.e_flags
                                ++ (to_le_bytes 2 header.e_ehsize
                                    ++ (to_le_bytes 2 header.e_phentsize
                                        ++ (to_le_bytes 2 header.e_phnum
                                            ++ (to_le_bytes 2 header.e_shentsize
                                                ++ (to_le_bytes 2 header.e_shnum
                                                    ++ to_le_bytes 2 header.e_shstrndx))))))))))))

unfoldable pub load_segment : ℕ → ProgramHeader
load_segment code_size = record {
  p_type = 1;
  p_flags = 5;
  p_offset = code_offset;
  p_vaddr = elf_base_vaddr + code_offset;
  p_paddr = elf_base_vaddr + code_offset;
  p_filesz = code_size;
  p_memsz = code_size;
  p_align = 4096;
}

unfoldable pub program_header_to_bytes : ProgramHeader → List ℕ
program_header_to_bytes header =
    to_le_bytes 4 header.p_type
    ++ (to_le_bytes 4 header.p_flags
        ++ (to_le_bytes 8 header.p_offset
            ++ (to_le_bytes 8 header.p_vaddr
                ++ (to_le_bytes 8 header.p_paddr
                    ++ (to_le_bytes 8 header.p_filesz
                        ++ (to_le_bytes 8 header.p_memsz ++ to_le_bytes 8 header.p_align))))))

unfoldable pub emit_elf64_executable : List ℕ → List ℕ
emit_elf64_executable code =
    let code_vaddr = elf_base_vaddr + code_offset in
    let headers =
      header_to_bytes (new_header code_vaddr)
      ++ program_header_to_bytes (load_segment (length code)) in
    let file = if ltb (length headers) code_offset then resize code_offset headers else headers in
    file ++ code

-- What a loader reads from an executable: the entry, and of the first program header the address,
-- the size in memory and the bytes that it names.
pub record Image : Type 0 where
  pub entry : ℕ
  pub address : ℕ
  pub memory_size : ℕ
  pub bytes : List ℕ

abbrev number_at : ℕ → ℕ → List ℕ → ℕ
number_at offset width file = from_le_bytes (slice offset width file)

unfoldable pub load_image : List ℕ → Image
load_image file =
    let phoff = number_at 32 8 file in
    record {
      entry = number_at 24 8 file;
      address = number_at (phoff + 16) 8 file;
      memory_size = number_at (phoff + 40) 8 file;
      bytes = slice (number_at (phoff + 8) 8 file) (number_at (phoff + 32) 8 file) file;
    }

abbrev headers_of : List ℕ → List ℕ
headers_of code =
    header_to_bytes (new_header 4198400) ++ program_header_to_bytes (load_segment (length code))

headers_length : (code : List ℕ) → length (headers_of code) ≡ 120
unfolding header_to_bytes new_header program_header_to_bytes load_segment to_le_bytes
headers_length code = refl

file_of : (code : List ℕ) → emit_elf64_executable code ≡ resize 4096 (headers_of code) ++ code
unfolding emit_elf64_executable
file_of code =
    let short : ltb (length (headers_of code)) 4096 ≡ true =
      lt→ltb _ _ (omega (arith, headers_length code)) in
    rw short refl

-- A number in the headers is read from them.
in_headers :
    (code : List ℕ) (offset width : ℕ)
    → offset + width ≤ 120
    → slice offset width (emit_elf64_executable code) ≡ slice offset width (headers_of code)
in_headers code offset width h =
    let (added, e) = resize-grows 4096 (headers_of code) (omega (arith, headers_length code)) in
    ap (slice offset width) (file_of code ∙ ap (λ f. f ++ code) e)
    ∙ slice-append offset width (headers_of code ++ added) code
        (omega (arith, headers_length code, length-append (headers_of code) added))
    ∙ slice-append offset width (headers_of code) added (omega (arith, headers_length code))

-- The fields of the headers that a loader reads.
fields :
    (code : List ℕ)
    → length code < 2 ^ 64
    → (number_at 24 8 (headers_of code) ≡ 4198400)
      × (number_at 32 8 (headers_of code) ≡ 64)
      × (number_at 72 8 (headers_of code) ≡ 4096)
      × (number_at 80 8 (headers_of code) ≡ 4198400)
      × (number_at 96 8 (headers_of code) ≡ length code)
      × (number_at 104 8 (headers_of code) ≡ length code)
unfolding header_to_bytes new_header program_header_to_bytes load_segment to_le_bytes from_le_bytes
    slice drop
fields code small =
    let size = from_le_bytes-to_le_bytes 8 (length code) small in
    (refl, refl, refl, refl, size, size)

code_at : (code : List ℕ) → slice 4096 (length code) (emit_elf64_executable code) ≡ code
code_at code =
    ap (slice 4096 (length code))
      (file_of code ∙ ap (λ c. resize 4096 (headers_of code) ++ c) (sym (append-nil code)))
    ∙ slice-at_end 4096 (resize 4096 (headers_of code)) code []
        (length-resize 4096 (headers_of code))

-- A loader finds the code of an executable at its entry: the bytes that the segment maps at
-- 0x401000 are the code's, the segment has the code's size, and the entry is its first address.
pub load_image-emit_elf64_executable :
    (code : List ℕ)
    → length code < 2 ^ 64
    → load_image (emit_elf64_executable code)
      ≡ (record { entry = 4198400; address = 4198400; memory_size = length code; bytes = code })
unfolding load_image
load_image-emit_elf64_executable code small =
    let (entry, phoff, offset, address, size, memory_size) = fields code small in
    let read =
      λ (at width : ℕ) (h : at + width ≤ 120). ap from_le_bytes (in_headers code at width h) in
    rw
      (
        read 24 8 (omega arith) ∙ entry,
        read 32 8 (omega arith) ∙ phoff,
        read 72 8 (omega arith) ∙ offset,
        read 80 8 (omega arith) ∙ address,
        read 96 8 (omega arith) ∙ size,
        read 104 8 (omega arith) ∙ memory_size,
        code_at code,
      )
      refl
