-- ===== src/Log/Bound.antt =====
-- The caps of a frame (`append_bounded`, `truncate_text` and `bound_frame` of log.rs,
-- crates/chimera-core-manager).
use chimera_service.Base.{
  ℕ, zero, suc, ◌+◌, ◌-◌, ◌*◌, ◌≤◌, min, ◌≡◌, refl, ap, inl, inr, Bool, true, false, Option, none,
  some, List, [], ◌∷◌, ◌++◌, arith, ltb, leb, ◌||◌, if◌then◌else◌, Bool-cases, length, take,
  length-take, length-append,
}
use chimera_service.Base.Text.{Bytes, floor_boundary, floor_boundary-le}
use chimera_service.Log.Frame.{LogFrame, LogField, LogTimestamp}

abbrev pub max_log_text_bytes : ℕ
max_log_text_bytes = 16 * 1024

abbrev pub max_log_target_bytes : ℕ
max_log_target_bytes = 2048

abbrev pub max_log_timestamp_raw_bytes : ℕ
max_log_timestamp_raw_bytes = 256

abbrev pub max_log_fields : ℕ
max_log_fields = 64

abbrev pub max_log_field_text_bytes : ℕ
max_log_field_text_bytes = 1024

-- what follows the line feed; the flag says that something was left behind
unfoldable pub append_line : (text line : Bytes) → (end : ℕ) → Bytes × Bool
append_line text line zero = (text, true)
append_line text line (suc end) = (text ++ b'\n' ∷ take (suc end) line, ltb (suc end) (length line))

-- `append_bounded`
unfoldable pub append_bounded : (text line : Bytes) → (max_bytes : ℕ) → Bytes × Bool
unfolding append_line floor_boundary
append_bounded text [] max_bytes =
    if leb max_bytes (length text) then (text, true) else (text ++ b'\n' ∷ [], false)
append_bounded text (b ∷ line) max_bytes =
    if leb max_bytes (length text)
    then (text, true)
    else append_line text (b ∷ line)
        (floor_boundary (b ∷ line) (min (max_bytes - length text - 1) (length (b ∷ line))))

-- `truncate_text`
unfoldable pub truncate_text : Bytes → (max_bytes : ℕ) → Bytes × Bool
unfolding floor_boundary
truncate_text text max_bytes =
    if leb (length text) max_bytes
    then (text, false)
    else (take (floor_boundary text max_bytes) text, true)

unfoldable pub truncate_target : Option Bytes → Option Bytes × Bool
unfolding truncate_text
truncate_target none = (none, false)
truncate_target (some target) =
    let cut = truncate_text target max_log_target_bytes in (some cut.0, cut.1)

unfoldable pub truncate_timestamp : Option LogTimestamp → Option LogTimestamp × Bool
unfolding truncate_text
truncate_timestamp none = (none, false)
truncate_timestamp (some timestamp) =
    let cut = truncate_text timestamp.raw max_log_timestamp_raw_bytes in
    (some (record timestamp { raw = cut.0 }), cut.1)

unfoldable pub truncate_field : LogField → LogField × Bool
unfolding truncate_text
truncate_field field =
    let key = truncate_text field.key max_log_field_text_bytes in
    let value = truncate_text field.value max_log_field_text_bytes in
    (record { key = key.0; value = value.0 }, key.1 || value.1)

unfoldable pub truncate_each : List LogField → List LogField × Bool
unfolding truncate_field
truncate_each [] = ([], false)
truncate_each (field ∷ fields) =
    let cut = truncate_field field in
    let rest = truncate_each fields in (cut.0 ∷ rest.0, cut.1 || rest.1)

unfoldable pub truncate_fields : List LogField → List LogField × Bool
unfolding truncate_each
truncate_fields fields =
    if ltb max_log_fields (length fields)
    then ((truncate_each (take max_log_fields fields)).0, true)
    else truncate_each fields

unfoldable pub bound_frame : LogFrame → LogFrame
unfolding truncate_text truncate_target truncate_timestamp truncate_fields
bound_frame frame =
    let message = truncate_text frame.message max_log_text_bytes in
    let raw = truncate_text frame.raw max_log_text_bytes in
    let target = truncate_target frame.target in
    let timestamp = truncate_timestamp frame.timestamp in
    let fields = truncate_fields frame.fields in
    record frame {
      message = message.0;
      raw = raw.0;
      target = target.0;
      timestamp = timestamp.0;
      fields = fields.0;
      truncated = frame.truncated || message.1 || raw.1 || target.1 || timestamp.1 || fields.1;
    }

abbrev pub TargetFits : Option Bytes → Type 0
TargetFits none = Unit
TargetFits (some target) = length target ≤ max_log_target_bytes

abbrev pub TimestampFits : Option LogTimestamp → Type 0
TimestampFits none = Unit
TimestampFits (some timestamp) = length timestamp.raw ≤ max_log_timestamp_raw_bytes

abbrev pub FieldsFit : List LogField → Type 0
FieldsFit [] = Unit
FieldsFit (field ∷ fields) =
    (length field.key ≤ max_log_field_text_bytes)
    × (length field.value ≤ max_log_field_text_bytes)
    × FieldsFit fields

-- every text of the frame is within its cap
pub record IsBounded (frame : LogFrame) : Type 0 where
  pub message : length frame.message ≤ max_log_text_bytes
  pub raw : length frame.raw ≤ max_log_text_bytes
  pub target : TargetFits frame.target
  pub timestamp : TimestampFits frame.timestamp
  pub fields : FieldsFit frame.fields
  pub count : length frame.fields ≤ max_log_fields

pub length-truncate_text :
    (text : Bytes) (max_bytes : ℕ) → length (truncate_text text max_bytes).0 ≤ max_bytes
unfolding truncate_text
length-truncate_text text max_bytes =
    ground
      (arith, length-take (floor_boundary text max_bytes) text, floor_boundary-le text max_bytes)

pub length-append_line :
    (text line : Bytes) (end max_bytes : ℕ)
    → length text + end + 1 ≤ max_bytes
    → length (append_line text line end).0 ≤ max_bytes
unfolding append_line
length-append_line text line zero max_bytes h = omega (arith, h)
length-append_line text line (suc end) max_bytes h =
    omega (arith, h, length-append text (b'\n' ∷ take (suc end) line), length-take (suc end) line)

pub length-append_bounded :
    (text line : Bytes) (max_bytes : ℕ)
    → length text ≤ max_bytes
    → length (append_bounded text line max_bytes).0 ≤ max_bytes
unfolding append_bounded
length-append_bounded text [] max_bytes h = ground (arith, length-append text (b'\n' ∷ []))
length-append_bounded text (b ∷ line) max_bytes h =
    let budget = min (max_bytes - length text - 1) (length (b ∷ line)) in
    elim (Bool-cases (leb max_bytes (length text))) [
      | inl e ↦ rw e h
      | inr e ↦ rw e (
          length-append_line text (b ∷ line) (floor_boundary (b ∷ line) budget) max_bytes
            (ground (arith, e, floor_boundary-le (b ∷ line) budget)))
    ]

truncate_target-TargetFits : (target : Option Bytes) → TargetFits (truncate_target target).0
unfolding truncate_target
truncate_target-TargetFits none = tt
truncate_target-TargetFits (some target) = length-truncate_text target max_log_target_bytes

truncate_timestamp-TimestampFits :
    (timestamp : Option LogTimestamp) → TimestampFits (truncate_timestamp timestamp).0
unfolding truncate_timestamp
truncate_timestamp-TimestampFits none = tt
truncate_timestamp-TimestampFits (some timestamp) =
    length-truncate_text timestamp.raw max_log_timestamp_raw_bytes

truncate_each-FieldsFit :
    (fields : List LogField)
    → FieldsFit (truncate_each fields).0 × (length (truncate_each fields).0 ≡ length fields)
unfolding truncate_each truncate_field
truncate_each-FieldsFit [] = (tt, refl)
truncate_each-FieldsFit (field ∷ fields) =
    let (fit, same) = truncate_each-FieldsFit fields in
    (
      (
        length-truncate_text field.key max_log_field_text_bytes,
        length-truncate_text field.value max_log_field_text_bytes,
        fit,
      ),
      ap suc same,
    )

truncate_fields-FieldsFit :
    (fields : List LogField)
    → FieldsFit (truncate_fields fields).0 × (length (truncate_fields fields).0 ≤ max_log_fields)
unfolding truncate_fields
truncate_fields-FieldsFit fields = elim (Bool-cases (ltb max_log_fields (length fields))) [
  | inl e ↦ rw e (
      let (fit, same) = truncate_each-FieldsFit (take max_log_fields fields) in
      (fit, omega (arith, same, length-take max_log_fields fields)))
  | inr e ↦
      rw e (let (fit, same) = truncate_each-FieldsFit fields in (fit, ground (arith, same, e)))
]

pub bound_frame-IsBounded : (frame : LogFrame) → IsBounded (bound_frame frame)
unfolding bound_frame
bound_frame-IsBounded frame =
    let (fit, count) = truncate_fields-FieldsFit frame.fields in
    record {
      message = length-truncate_text frame.message max_log_text_bytes;
      raw = length-truncate_text frame.raw max_log_text_bytes;
      target = truncate_target-TargetFits frame.target;
      timestamp = truncate_timestamp-TimestampFits frame.timestamp;
      fields = fit;
      count = count;
    }
