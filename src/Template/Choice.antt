-- ===== src/Template/Choice.antt =====
-- src/template/list.go: which of a list of templates gives a segment its text. `render` stands for
-- `Render`, which runs Go's text/template on the segment's writer, with `none` for an error, and
-- `is_blank` for the test that nothing is left of a text by `strings.TrimSpace`.
use Prim.Native.String.{◌++◌ as append_text}
use prompto.Prelude.{
  ◌≡◌, refl, ap, ◌∙◌, Bool, false, List, [], ◌∷◌, Option, none, some, String, if◌then◌else◌, ◌==◌,
  string_comparable, Bool-cases, ◌⊎◌, inl, inr,
}

abbrev pub first_match_logic : String
first_match_logic = "first_match"

abbrev pub head_or : String → List String → String
head_or default [] = default
head_or default (v ∷ vs) = v

abbrev pub concat_texts : List String → String
concat_texts [] = ""
concat_texts (v ∷ vs) = append_text v (concat_texts vs)

-- One more text at the front, if there is one.
abbrev pub value_or : Option String → String → String
value_or none rest = rest
value_or (some v) rest = v

abbrev pub write_value : Option String → String → String
write_value none rest = rest
write_value (some v) rest = append_text v rest

abbrev pub add_value : Option String → List String → List String
add_value none rest = rest
add_value (some v) rest = v ∷ rest

value_or-add_value :
    (o : Option String) (default : String) (vs : List String)
    → value_or o (head_or default vs) ≡ head_or default (add_value o vs)
value_or-add_value none default vs = refl
value_or-add_value (some v) default vs = refl

write_value-add_value :
    (o : Option String) (vs : List String)
    → write_value o (concat_texts vs) ≡ concat_texts (add_value o vs)
write_value-add_value none vs = refl
write_value-add_value (some v) vs = refl

module _ (render : String → Option String) (is_blank : String → Bool) where
  -- What a template adds: nothing, if it fails or is blank.
  abbrev pub value_of : String → Option String
  value_of tmpl = elim (render tmpl) [
    | none ↦ none
    | some value ↦ if is_blank value then none else some value
  ]

  unfoldable pub first_match : List String → String → String
  first_match [] default = default
  first_match (tmpl ∷ l) default = value_or (value_of tmpl) (first_match l default)

  unfoldable pub join : List String → String
  join [] = ""
  join (tmpl ∷ l) = write_value (value_of tmpl) (join l)

  unfoldable pub resolve : List String → String → String → String
  unfolding first_match join
  resolve [] default logic = default
  resolve (tmpl ∷ l) default logic =
      if logic == first_match_logic then first_match (tmpl ∷ l) default else join (tmpl ∷ l)

  -- The texts that a list of templates gives, in order.
  abbrev pub values : List String → List String
  values [] = []
  values (tmpl ∷ l) = add_value (value_of tmpl) (values l)

  pub first_match-values :
      (l : List String) (default : String) → first_match l default ≡ head_or default (values l)
  unfolding first_match
  first_match-values [] default = refl
  first_match-values (tmpl ∷ l) default =
      ap (value_or (value_of tmpl)) (first_match-values l default)
      ∙ value_or-add_value (value_of tmpl) default (values l)

  join-values : (l : List String) → join l ≡ concat_texts (values l)
  unfolding join
  join-values [] = refl
  join-values (tmpl ∷ l) =
      ap (write_value (value_of tmpl)) (join-values l)
      ∙ write_value-add_value (value_of tmpl) (values l)

  -- A list of templates gives the default, if it is empty; otherwise, of the texts that its
  -- templates render to without error and not blank, in order: by the logic first_match the first
  -- one, or the default if there is none, and by any other logic all of them, joined.
  pub resolve-values :
      (l : List String) (default logic : String)
      → ((l ≡ []) × (resolve l default logic ≡ default))
        ⊎ ((logic ≡ first_match_logic) × (resolve l default logic ≡ head_or default (values l)))
        ⊎ (((logic == first_match_logic) ≡ false)
            × (resolve l default logic ≡ concat_texts (values l)))
  unfolding resolve
  resolve-values [] default logic = inl (refl, refl)
  resolve-values (tmpl ∷ l) default logic = elim (Bool-cases (logic == first_match_logic)) [
    | inl first ↦ inr (
        inl (
          (string_comparable.equals_iff logic first_match_logic).0 first,
          rw first (first_match-values (tmpl ∷ l) default),
        ))
    | inr other ↦ inr (inr (other, rw other (join-values (tmpl ∷ l))))
  ]
