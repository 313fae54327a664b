-- ===== src/Metrics/Exposition.antt =====
-- pkg/framework/metrics.go: reading a body in the exposition format. `parse_float` stands for
-- `strconv.ParseFloat` and `quote` for `strconv.Quote`.
pub mod Rounds
use nfs_verification.Metrics.{MetricSet, put, text_less}
use nfs_verification.Prelude.{
  ℕ, zero, suc, Bool, true, false, not, ◌&&◌, ◌||◌, List, [], ◌∷◌, ◌++◌, Option, none, some,
  if◌then◌else◌, leb, ◌==◌, sort_by, length, pos,
}
use nfs_verification.Text.{
  Text, codes, eq_text, is_empty, split, fields, trim_space, has_prefix, to_lower, join, trim_left,
}

-- `isLabelNameChar`.
is_label_name_char : ℕ → Bool
is_label_name_char c =
    leb b'a' c && leb c b'z' || leb b'A' c && leb c b'Z' || leb b'0' c && leb c b'9' || c == b'_'

is_name_start : ℕ → Bool
is_name_start c = leb b'a' c && leb c b'z' || leb b'A' c && leb c b'Z' || c == b'_' || c == b':'

name_rest : Text → Bool
unfolding is_name_start
name_rest [] = true
name_rest (c ∷ s) = (is_name_start c || leb b'0' c && leb c b'9') && name_rest s

-- `validMetricName`.
pub valid_metric_name : Text → Bool
unfolding is_name_start name_rest
valid_metric_name [] = false
valid_metric_name (c ∷ s) = is_name_start c && name_rest s

is_blank : ℕ → Bool
is_blank c = c == b' ' || c == b'\t'

-- The longest front whose characters pass, and what is behind it.
split_front : (ℕ → Bool) → Text → Text × Text
split_front p [] = ([], [])
split_front p (c ∷ s) =
    let (front, rest) = split_front p s in if p c then (c ∷ front, rest) else ([], c ∷ s)

-- What a backslash and the character behind it stand for.
unescape : ℕ → Text
unescape c =
    if c == b'n'
    then b'\n' ∷ []
    else if c == b'\\'
    then b'\\' ∷ []
    else if c == b'"'
    then b'"' ∷ []
    else b'\\' ∷ (c ∷ [])

with_front : Text → Option (Text × Text) → Option (Text × Text)
with_front front none = none
with_front front (some (value, rest)) = some (front ++ value, rest)

-- A value up to its closing quote, and what is behind that; the backslash at the end of a text stands
-- for itself.
read_value : Text → Option (Text × Text)
unfolding unescape with_front
read_value [] = none
read_value (c ∷ []) = if c == b'"' then some ([], []) else none
read_value (c ∷ (d ∷ s)) =
    let escaped = read_value s in
    let plain = read_value (d ∷ s) in
    if c == b'\\'
    then with_front (unescape d) escaped
    else if c == b'"'
    then some ([], d ∷ s)
    else with_front (c ∷ []) plain

quoted_at : Text → Option (Text × Text)
unfolding read_value
quoted_at [] = none
quoted_at (d ∷ u) = if d == b'"' then read_value u else none

equals_at : Text → Option (Text × Text)
unfolding quoted_at trim_left is_blank
equals_at [] = none
equals_at (c ∷ t) = if c == b'=' then quoted_at (trim_left is_blank t) else none

-- What stands behind a label's name: an equals sign and a quoted value, with blanks before each.
value_behind : Text → Option (Text × Text)
unfolding trim_left is_blank equals_at
value_behind s = equals_at (trim_left is_blank s)

is_separator : ℕ → Bool
is_separator c = c == b' ' || c == b'\t' || c == b','

module _ (quote : Text → Text) where
  label_at : Text → Text → Option (Text × Text)
  unfolding value_behind
  label_at [] s = none
  label_at (c ∷ name) s = elim (value_behind s) [
    | none ↦ none
    | some (value, rest) ↦ some ((c ∷ name) ++ b'=' ∷ quote value, rest)
  ]

  -- A label, rendered, and what is behind it.
  read_label : Text → Option (Text × Text)
  unfolding split_front is_label_name_char label_at
  read_label s = let (name, rest) = split_front is_label_name_char s in label_at name rest

  with_pair : Text → Option (List Text × Text) → Option (List Text × Text)
  with_pair pair none = none
  with_pair pair (some (pairs, rest)) = some (pair ∷ pairs, rest)

  next_pair : (Text → Option (List Text × Text)) → Option (Text × Text) → Option (List Text × Text)
  unfolding with_pair
  next_pair go none = none
  next_pair go (some (pair, rest)) = with_pair pair (go rest)

  label_round : (Text → Option (List Text × Text)) → Text → Option (List Text × Text)
  unfolding next_pair read_label
  label_round go [] = none
  label_round go (c ∷ t) = if c == b'}' then some ([], t) else next_pair go (read_label (c ∷ t))

  -- The loop of `readLabels` from behind the brace on, with a number of rounds.
  pairs_from : ℕ → Text → Option (List Text × Text)
  unfolding trim_left is_separator label_round
  pairs_from zero s = none
  pairs_from (suc n) s = label_round (λ rest. pairs_from n rest) (trim_left is_separator s)

  render_labels : List Text → Text
  unfolding text_less sort_by join
  render_labels [] = []
  render_labels (p ∷ ps) = codes "{" ++ join (codes ",") (sort_by text_less (p ∷ ps)) ++ codes "}"

  rendered : Option (List Text × Text) → Option (Text × Text)
  unfolding render_labels
  rendered none = none
  rendered (some (pairs, rest)) = some (render_labels pairs, rest)

  -- `readLabels`, on what is behind the opening brace.
  pub read_labels : Text → Option (Text × Text)
  unfolding rendered pairs_from
  read_labels s = rendered (pairs_from (suc (length s)) s)

  labels_of : Text → Option (Text × Text)
  unfolding read_labels
  labels_of [] = some ([], [])
  labels_of (c ∷ s) = if c == b'{' then read_labels s else some ([], c ∷ s)

  module _ {ℓ} {F : Type ℓ} (parse_float : Text → Option F) where
    value_of : Text → List Text → Option (Text × F)
    value_of key [] = none
    value_of key (v ∷ _) = elim (parse_float v) [ none ↦ none | some f ↦ some (key, f) ]

    sample_with : Text → Option (Text × Text) → Option (Text × F)
    unfolding value_of fields
    sample_with name none = none
    sample_with name (some (labels, rest)) = value_of (name ++ labels) (fields rest)

    -- `parseSample`. A line that is all name has no value.
    pub parse_sample : Text → Option (Text × F)
    unfolding split_front labels_of sample_with is_blank valid_metric_name
    parse_sample line =
        let (name, rest) = split_front (λ c. not (c == b'{' || is_blank c)) line in
        if is_empty rest || not (valid_metric_name name)
        then none
        else sample_with name (labels_of rest)

    -- A TYPE line, by its fields.
    add_type : List Text → MetricSet F → MetricSet F
    unfolding put
    add_type (_ ∷ (word ∷ (family ∷ (type_word ∷ _)))) m =
        if eq_text word (codes "TYPE")
        then record m { types = put family (to_lower type_word) m.types }
        else m
    add_type _ m = m

    add_sample : Option (Text × F) → MetricSet F → MetricSet F
    unfolding put
    add_sample none m = record m { lines = suc m.lines; unparsed = suc m.unparsed }
    add_sample (some (key, value)) m = record m {
      lines = suc m.lines;
      samples = put key value m.samples;
    }

    exposition_line : Text → MetricSet F → MetricSet F
    unfolding add_type add_sample parse_sample
    exposition_line raw m =
        let line = trim_space raw in
        if is_empty line
        then m
        else if has_prefix line (codes "#")
        then add_type (fields line) m
        else add_sample (parse_sample line) m

    pub exposition_lines : List Text → MetricSet F → MetricSet F
    unfolding exposition_line
    exposition_lines [] m = m
    exposition_lines (l ∷ ls) m = exposition_lines ls (exposition_line l m)

    -- `ParseExposition`, less the excerpt.
    unfoldable pub parse_exposition : Text → MetricSet F
    unfolding exposition_lines
    parse_exposition raw = exposition_lines (split b'\n' raw) (record {
      at = pos 0;
      endpoint = [];
      scheme = [];
      samples = [];
      types = [];
      lines = 0;
      unparsed = 0;
      excerpt = [];
    })
