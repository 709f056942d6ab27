-- ===== src/Tests/Runner.antt =====
-- The runner on a small fixture file.
use mcp_module.Common.{some, List, [], ◌∷◌, ◌≡◌, ◌↔◌, refl, arith, codes, String, traverse, All}
use mcp_module.Common.Int.{pos}
use mcp_module.Json.{
  Value, int, str, arr, items, elems, object, fields, members, struct_of, find_field, string_of,
  int_of, list_of,
}
use mcp_module.Json.Text.{Digits, is_escaped}
use mcp_module.Runner.{FixtureInput, decode_input, decode_fixture}
use mcp_module.Runner.Main.{document, run}
use mcp_module.Runner.Exits.{Passes, run_zero_iff}
use mcp_module.Runner.Passing.Main.{IsUsable, run_passes}
use mcp_module.Tests.Sample.{go, go-VisitsAll}

abbrev no_digits : Digits
no_digits = record { of_int = λ _. codes "1"; of_float = λ _. codes "1" }

abbrev written_input : String → Value
written_input value = object (
    ("locale", str "en")
    ∷ ("tool_name", str "t")
    ∷ ("tool_arg_key", str "k")
    ∷ ("tool_arg_value", str value)
    ∷ ("resource_uri", str "u")
    ∷ ("resource_name", str "n")
    ∷ ("resource_body", str "b")
    ∷ ("prompt_name", str "p")
    ∷ ("prompt_text", str "x")
    ∷ ("expected_min_runes", int (pos 2))
    ∷ [])

abbrev read_input : String → FixtureInput
read_input value = record {
  locale = "en";
  tool_name = "t";
  tool_description = "";
  tool_arg_key = "k";
  tool_arg_value = value;
  resource_uri = "u";
  resource_name = "n";
  resource_body = "b";
  prompt_name = "p";
  prompt_description = "";
  prompt_arg_key = "";
  prompt_arg_value = "";
  prompt_text = "x";
  expected_min_runes = pos 2;
}

abbrev written_file : Value
written_file = object (
    ("inputs", arr (items (written_input "hi" ∷ written_input "hey" ∷ written_input "hola" ∷ [])))
    ∷ [])

abbrev read_file : List FixtureInput
read_file = read_input "hi" ∷ read_input "hey" ∷ read_input "hola" ∷ []

decoded : decode_fixture written_file ≡ some read_file
unfolding decode_fixture decode_input struct_of list_of find_field fields members traverse elems
    items string_of int_of
decoded = refl

usable : All IsUsable read_file
unfolding is_escaped
usable = (
  (
    ((refl, (refl, tt)), refl),
    ((refl, tt), (refl, (refl, (refl, (refl, (refl, (refl, (refl, tt)))))))),
    ((refl, tt), (refl, tt)),
    ((refl, tt), (refl, tt)),
  ),
  (
    (
      ((refl, (refl, (refl, tt))), refl),
      ((refl, tt), (refl, (refl, (refl, (refl, (refl, (refl, (refl, (refl, tt))))))))),
      ((refl, tt), (refl, tt)),
      ((refl, tt), (refl, tt)),
    ),
    (
      (
        ((refl, (refl, (refl, (refl, tt)))), refl),
        ((refl, tt), (refl, (refl, (refl, (refl, (refl, (refl, (refl, (refl, (refl, tt)))))))))),
        ((refl, tt), (refl, tt)),
        ((refl, tt), (refl, tt)),
      ),
      tt,
    ),
  ),
)

run_passes_example : run go no_digits (document written_file) ≡ 0
run_passes_example =
    run_passes go no_digits (λ n _. refl) go-VisitsAll written_file read_file decoded (omega arith)
      usable

-- Two inputs are too few.
abbrev short_file : Value
short_file = object (("inputs", arr (items (written_input "hi" ∷ written_input "hey" ∷ []))) ∷ [])

run_zero_iff_example :
    (run go no_digits (document short_file) ≡ 0) ↔ Passes go no_digits (document short_file)
run_zero_iff_example = run_zero_iff go no_digits (document short_file)
