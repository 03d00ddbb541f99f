-- ===== src/Object/Metadata.antt =====
-- src/object/artifact.rs: the text and the note that say what a file was made of.
use Prim.Native.Char.{code}
use Prim.Native.String.{String}
use aziky.Prelude.{
  ℕ, zero, suc, ◌+◌, ◌/◌, ◌%◌, ◌^◌, Bool, true, false, ◌&&◌, ◌||◌, none, some, List, [], ◌∷◌, ◌++◌,
  length, get_elem?, ltb, ◌==◌, if◌then◌else◌,
}
use aziky.Object.Bytes.{to_le_bytes}

-- The bytes of a text of ASCII characters.
abbrev pub codes : String → List ℕ
codes String.[] = []
codes (String.◌∷◌ c s) = code c ∷ codes s

-- A text is its bytes.
pub record DebugSource : Type 0 where
  pub path : List ℕ

pub record DebugDeclaration : Type 0 where
  pub name : List ℕ
  pub kind : List ℕ
  pub source_index : ℕ
  pub line : ℕ
  pub column : ℕ
  pub is_public : Bool

pub record ArtifactMetadata : Type 0 where
  pub target : List ℕ
  pub sources : List DebugSource
  pub declarations : List DebugDeclaration
  pub block_symbols : List (ℕ × ℕ × ℕ)

-- `replace` of a character by a text.
unfoldable pub replace : ℕ → List ℕ → List ℕ → List ℕ
replace character by [] = []
replace character by (c ∷ text) =
    let rest = replace character by text in if c == character then by ++ rest else c ∷ rest

unfoldable pub escape_field : List ℕ → List ℕ
escape_field value =
    let backslashes = replace b'\\' (codes "\\\\") value in
    let tabs = replace 9 (codes "\\t") backslashes in
    let lines = replace 10 (codes "\\n") tabs in replace 13 (codes "\\r") lines

-- The digits of a number behind those of its last ones; a usize has twenty at most.
unfoldable pub decimal_from : ℕ → ℕ → List ℕ → List ℕ
decimal_from zero value digits = digits
decimal_from (suc fuel) value digits =
    let rest = decimal_from fuel (value / 10) ((48 + value % 10) ∷ digits) in
    if ltb value 10 then (48 + value) ∷ digits else rest

unfoldable pub decimal : ℕ → List ℕ
decimal value = decimal_from 20 value []

-- The order of texts by their bytes.
unfoldable pub text_le : List ℕ → List ℕ → Bool
text_le [] text = true
text_le (x ∷ xs) [] = false
text_le (x ∷ xs) (y ∷ ys) = let rest = text_le xs ys in ltb x y || x == y && rest

-- The order of the keys (source_index, line, column, name).
unfoldable pub declaration_le : DebugDeclaration → DebugDeclaration → Bool
declaration_le a b =
    ltb a.source_index b.source_index
    || a.source_index == b.source_index
      && (ltb a.line b.line
          || a.line == b.line
            && (ltb a.column b.column || a.column == b.column && text_le a.name b.name))

-- `sort_by_key`, which is stable.
unfoldable pub insert_declaration : DebugDeclaration → List DebugDeclaration → List DebugDeclaration
insert_declaration d [] = d ∷ []
insert_declaration d (e ∷ declarations) =
    let rest = insert_declaration d declarations in
    if declaration_le d e then d ∷ e ∷ declarations else e ∷ rest

unfoldable pub sort_declarations : List DebugDeclaration → List DebugDeclaration
sort_declarations [] = []
sort_declarations (d ∷ declarations) = insert_declaration d (sort_declarations declarations)

abbrev tab : List ℕ
tab = 9 ∷ []

abbrev newline : List ℕ
newline = 10 ∷ []

unfoldable pub source_lines : ℕ → List DebugSource → List ℕ
source_lines index [] = []
source_lines index (source ∷ sources) =
    codes "source"
    ++ (tab ++ (decimal index ++ (tab ++ (escape_field source.path ++ newline))))
    ++ source_lines (suc index) sources

-- The path in a declaration's line is not escaped.
abbrev pub declared_path : List DebugSource → ℕ → List ℕ
declared_path sources index = elim (get_elem? sources index) [
  | none ↦ []
  | some source ↦ source.path
]

abbrev public_digit : Bool → ℕ
public_digit true = 1
public_digit false = 0

unfoldable pub declaration_line : List DebugSource → DebugDeclaration → List ℕ
declaration_line sources d =
    codes "declaration"
    ++ (tab ++ escape_field d.kind)
    ++ (tab ++ decimal (public_digit d.is_public))
    ++ (tab ++ decimal d.source_index)
    ++ (tab ++ decimal d.line)
    ++ (tab ++ decimal d.column)
    ++ (tab ++ escape_field d.name)
    ++ (tab ++ declared_path sources d.source_index)
    ++ newline

unfoldable pub declaration_lines : List DebugSource → List DebugDeclaration → List ℕ
declaration_lines sources [] = []
declaration_lines sources (d ∷ declarations) =
    declaration_line sources d ++ declaration_lines sources declarations

unfoldable pub metadata_text : ArtifactMetadata → List ℕ
metadata_text metadata =
    codes "aziky-metadata=1"
    ++ newline
    ++ codes "target="
    ++ metadata.target
    ++ newline
    ++ source_lines 0 metadata.sources
    ++ declaration_lines metadata.sources (sort_declarations metadata.declarations)

-- `while out.len() % 4 != 0`, which takes three rounds at most.
unfoldable pub pad_to_four : ℕ → List ℕ → List ℕ
pad_to_four zero out = out
pad_to_four (suc fuel) out =
    let rest = pad_to_four fuel (out ++ 0 ∷ []) in if length out % 4 == 0 then out else rest

unfoldable pub aziky_note : ArtifactMetadata → List ℕ
aziky_note metadata =
    let descriptor = metadata_text metadata in
    let named =
      to_le_bytes 4 6
      ++ to_le_bytes 4 (length descriptor % 2 ^ 32)
      ++ to_le_bytes 4 1096436569
      ++ (codes "AZIKY" ++ 0 ∷ []) in
    pad_to_four 3 (pad_to_four 3 named ++ descriptor)
