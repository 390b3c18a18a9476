-- ===== src/Logging/Line.antt =====
-- Fields, `emit` and the two encoders of internal/logging/logging.go and json.go. The parameters are
-- what the package takes from the standard library: `fmt`'s decimal, `Duration.String`, the seconds of
-- a duration as a float, and `json.Marshal` of a string. `sort.Slice` by key is an insertion sort.
pub mod ReadBack
pub mod Emitted
use minisshd.Prelude.{
  ℕ, suc, Bool, true, false, ◌||◌, ◌&&◌, List, [], ◌∷◌, ◌++◌, ltb, ◌==◌, if◌then◌else◌, Bytes,
  codes, ◌=s=◌,
}
use minisshd.Logging.Scrub.{scrub_all}

pub data Kind : Type 0 where
  string int duration_sec : Kind

-- `value` is the form that logfmt prints; `num` is meant for integers and `dur` for durations. The
-- integers that the program logs are counts, ports and process ids.
pub record Field : Type 0 where
  pub key : Bytes
  pub value : Bytes
  pub kind : Kind
  pub num : ℕ
  pub dur : ℕ

pub data Format : Type 0 where
  logfmt json : Format

-- A space, tab, newline, carriage return, '=' or '"'.
abbrev pub is_special : ℕ → Bool
is_special c = c == 32 || c == 9 || c == 10 || c == 13 || c == b'=' || c == 34

unfoldable pub has_special : Bytes → Bool
has_special [] = false
has_special (c ∷ s) = is_special c || has_special s

unfoldable pub needs_quoting : Bytes → Bool
needs_quoting [] = true
needs_quoting (c ∷ s) = has_special (c ∷ s)

-- Quotes and backslashes get a backslash in front.
unfoldable pub escape : Bytes → Bytes
escape [] = []
escape (c ∷ s) = if c == 34 || c == 92 then 92 ∷ c ∷ escape s else c ∷ escape s

unfoldable pub write_value : Bytes → Bytes
write_value v = if needs_quoting v then 34 ∷ (escape v ++ 34 ∷ []) else v

unfoldable pub write_fields : List Field → Bytes
write_fields [] = []
write_fields (f ∷ fs) = 32 ∷ (f.key ++ b'=' ∷ (write_value f.value ++ write_fields fs))

unfoldable pub encode_logfmt : (now level event : Bytes) → List Field → Bytes
encode_logfmt now level event fields =
    now ++ 32 ∷ (level ++ 32 ∷ (event ++ (write_fields fields ++ 10 ∷ [])))

-- Go's `<` on strings.
unfoldable pub string_less : Bytes → Bytes → Bool
string_less [] [] = false
string_less [] (b ∷ t) = true
string_less (a ∷ s) [] = false
string_less (a ∷ s) (b ∷ t) = if ltb a b then true else (a == b && string_less s t)

unfoldable pub sort_in : Field → List Field → List Field
sort_in f [] = f ∷ []
sort_in f (g ∷ gs) = if string_less g.key f.key then g ∷ sort_in f gs else f ∷ g ∷ gs

unfoldable pub sort : List Field → List Field
sort [] = []
sort (f ∷ fs) = sort_in f (sort fs)

unfoldable pub has_dot : Bytes → Bool
has_dot [] = false
has_dot (c ∷ s) = c == b'.' || has_dot s

module _ (json_string : Bytes → Bytes) (float_seconds : ℕ → Bytes) where
  abbrev pub write_json_key : Bytes → Bytes
  write_json_key key = json_string key ++ b':' ∷ []

  unfoldable pub json_value : Field → Bytes
  json_value f = elim f.kind [
    | int ↦ f.value
    | duration_sec ↦ let s = float_seconds f.dur in if has_dot s then s else s ++ codes ".0"
    | string ↦ json_string f.value
  ]

  unfoldable pub write_json_fields : List Field → Bytes
  write_json_fields [] = []
  write_json_fields (f ∷ fs) =
      b',' ∷ (write_json_key f.key ++ (json_value f ++ write_json_fields fs))

  unfoldable pub encode_json : (now level event : Bytes) → List Field → Bytes
  encode_json now level event fields =
      b'{'
      ∷ (write_json_key (codes "ts")
          ++ (json_string now
              ++ b','
                ∷ (write_json_key (codes "level")
                    ++ (json_string level
                        ++ b','
                          ∷ (write_json_key (codes "event")
                              ++ (json_string event
                                  ++ (write_json_fields (sort fields) ++ b'}' ∷ 10 ∷ [])))))))

  -- The line that `emit` writes.
  unfoldable pub emit_line :
      Format → (scrubs : List Bytes) → (now level event : Bytes) → List Field → Bytes
  emit_line logfmt scrubs now level event fields =
      scrub_all scrubs (encode_logfmt now level event fields)
  emit_line json scrubs now level event fields =
      scrub_all scrubs (encode_json now level event fields)
