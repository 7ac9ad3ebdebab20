-- ===== src/Portal/Admin/ServiceForms.antt =====
-- internal/portal/admin.go: the form of `saveService`, with its request fields and custom fields.
-- One of the six groups `field_i_*`; the type is `none` for a text that is no type.
use game_server_dashboard.Go.Numbers.{itoa, split}
use game_server_dashboard.Go.Text.{Text, is_blank, trim_space}
use game_server_dashboard.Portal.Db.{Error, refused}
use game_server_dashboard.Portal.Types.{Field, FieldType, Mode, ServiceRow, Value, select_field}
use game_server_dashboard.Prelude.{
  Bool, List, Option, Result, [], false, guard, if◌then◌else◌, leb, length, ltb, not, ok, require,
  true, ℕ, ◌&&◌, ◌+◌, ◌==◌, ◌>>=◌, ◌>>◌, ◌||◌, ◌∷◌,
}

pub record FieldInput : Type 0 where
  pub label : Text
  pub type : Option FieldType
  pub required : Bool
  pub options : Text

-- The row has the values of the form; its mode is `none` for a text that is no mode.
pub record ServiceForm : Type 0 where
  pub row : ServiceRow
  pub mode : Option Mode
  pub inputs : List FieldInput
  pub custom : List Value

abbrev pub is_slug_char : ℕ → Bool
is_slug_char c = leb b'a' c && leb c b'z' || leb b'0' c && leb c b'9'

-- slugPattern: runs of letters and digits with single hyphens between; `begun` tells whether a run
-- has begun.
unfoldable pub is_slug_from : Bool → Text → Bool
is_slug_from begun [] = begun
is_slug_from begun (c ∷ s) =
    let as_char = is_slug_from true s in
    let as_hyphen = is_slug_from false s in
    if is_slug_char c then as_char else begun && c == b'-' && as_hyphen

unfoldable pub is_slug : Text → Bool
unfolding is_slug_from
is_slug s = is_slug_from false s

abbrev pub is_select : FieldType → Bool
is_select select_field = true
is_select _ = false

unfoldable pub select_options : List Text → List Text
select_options [] = []
select_options (v ∷ vs) =
    let rest = select_options vs in
    let v' = trim_space v in if not (is_blank v') && ltb (length v') 100 then v' ∷ rest else rest

-- One round of the loop over the request fields.
unfoldable pub field_of : ℕ → FieldInput → Result Error Field
unfolding select_options
field_of i x = do
  type ← require x.type (refused "Invalid request field")
  guard (leb (length (trim_space x.label)) 100) (refused "Invalid request field")
  let options = if is_select type then select_options (split b',' x.options) else []
  guard (not (is_select type) || leb 1 (length options) && leb (length options) 20)
      (refused "Select fields need 1–20 comma-separated options.")
  ok (record {
    key = b'f' ∷ itoa i;
    label = trim_space x.label;
    type = type;
    required = x.required;
    options = options;
  })

unfoldable pub fields_from : ℕ → List FieldInput → Result Error (List Field)
unfolding field_of
fields_from i [] = ok []
fields_from i (x ∷ xs) =
    if is_blank (trim_space x.label)
    then fields_from (i + 1) xs
    else (do f ← field_of i x; more ← fields_from (i + 1) xs; ok (f ∷ more))

unfoldable pub custom_values : List Value → Result Error (List Value)
custom_values [] = ok []
custom_values (x ∷ xs) =
    if is_blank (trim_space x.label) || is_blank x.value then custom_values xs else (do
      guard (leb (length (trim_space x.label)) 100 && leb (length x.value) 1000)
          (refused "Custom field is too long")
      more ← custom_values xs
      ok (record { label = trim_space x.label; value = x.value } ∷ more))
