-- ===== src/Tests/Texts.antt =====
-- config/refs.go at concrete texts.
use faber.Common.{◌≡◌, ◌↔◌, refl, [], ◌∷◌}
use faber.Config.Refs.{
  Bytes, params, Ref, ok, err, text, list, cons, nil, reference, parse_ref, print_ref,
  parse_binding, nested, surrounding_text,
}
use faber.Config.Refs.Printed.{IsRef}
use faber.Config.Refs.RoundTrip.{parse_ref_iff}
use faber.Config.Refs.Bindings.{IsBinding, interpolation, parse_binding_sound}

-- params.x
abbrev x_param : Ref
x_param = record { root = params; name = 120 ∷ []; field = [] }

abbrev x_text : Bytes
x_text = 112 ∷ 97 ∷ 114 ∷ 97 ∷ 109 ∷ 115 ∷ 46 ∷ 120 ∷ []

parses_param : parse_ref x_text ≡ ok x_param
unfolding parse_ref
parses_param = refl

refuses_surrounding : parse_binding (text (97 ∷ interpolation x_text)) ≡ err surrounding_text
unfolding parse_binding
refuses_surrounding = refl

refuses_nested : parse_binding (list (cons (text (interpolation x_text)) nil)) ≡ err nested
unfolding parse_binding
refuses_nested = refl

parse_ref_iff_example :
    (parse_ref x_text ≡ ok x_param) ↔ (IsRef x_param × (print_ref x_param ≡ x_text))
parse_ref_iff_example = parse_ref_iff x_text x_param

parse_binding_sound_example : IsBinding (text (interpolation x_text)) (reference x_param)
unfolding parse_binding parse_ref
parse_binding_sound_example =
    parse_binding_sound (text (interpolation x_text)) (reference x_param) refl
