-- ===== src/Tests/PreviewCases.antt =====
-- The preview window at concrete inputs.
use hive_manager.Base.{
  ◌==◌, ◌≡◌, refl, ◌↔◌, inr, true, false, Option, none, some, List, [], ◌∷◌, Text, codes, is_nil,
  until,
}
use hive_manager.Preview.{WindowGeometry, fresh}
use hive_manager.Preview.Docking.{
  Reads, WindowEvent, moved, dock, undock, opened, destroyed, handle_all,
}
use hive_manager.Preview.Layout.{Consistent, handle_all-Consistent}
use hive_manager.Preview.Split.{ratio, scaled_min, dock_split, Fits, dock_split-Fits}
use hive_manager.Preview.Address.{trim, Urls, normalize_preview_input, validate_preview_url}
use hive_manager.Preview.Address.Normal.{Prepended, normalize_preview_input_lem}
use hive_manager.Preview.Address.Gate.{Safe, validate_preview_url_lem}

abbrev wide : WindowGeometry
wide = record { x = 100; y = 200; width = 1600; height = 900 }

abbrev column : WindowGeometry
column = record { x = 1160; y = 0; width = 760; height = 1040 }

abbrev read_before : Reads
read_before = record {
  main_geometry = some wide;
  main_was_maximized = false;
  preview_geometry = some column;
  preview_was_maximized = true;
}

fresh-Consistent : Consistent fresh
fresh-Consistent = record { snapshot = λ _. (refl, refl); maximize = λ _. refl }

abbrev a_day : List WindowEvent
a_day = opened ∷ moved false (some wide) ∷ dock read_before [] true ∷ undock false ∷ destroyed ∷ []

handle_all-Consistent_example : Consistent (handle_all a_day fresh)
handle_all-Consistent_example = handle_all-Consistent a_day fresh fresh-Consistent

abbrev afterwards : List WindowEvent
afterwards = dock read_before [] false ∷ moved false (some column) ∷ dock read_before [] true ∷ []

dock_split-Fits_example :
    Fits 1920
      (scaled_min 800 (ratio 5 4))
      (scaled_min 420 (ratio 5 4))
      (dock_split 1920 (ratio 5 4))
dock_split-Fits_example = dock_split-Fits 1920 (ratio 5 4)

normalize_preview_input_lem_example :
    Prepended (trim (codes " localhost:5173")) (normalize_preview_input (codes " localhost:5173"))
    × (normalize_preview_input (normalize_preview_input (codes " localhost:5173"))
        ≡ normalize_preview_input (codes " localhost:5173"))
normalize_preview_input_lem_example = normalize_preview_input_lem (codes " localhost:5173")

-- A parser that takes every text that is not empty for a URL of one host.
parse_any : Text → Option Text
parse_any [] = none
parse_any (c ∷ t) = some (c ∷ t)

abbrev one_host : Urls Text
unfolding parse_any
one_host = record {
  parse = parse_any;
  as_str = λ u. u;
  scheme = λ u. until (λ c. c == b':') u;
  host_str = λ _. some (codes "example.com");
  username = λ _. [];
  password = λ _. none;
  port_or_known_default = λ _. some 443;
}

abbrev example_com : Text
example_com = codes "https://example.com/a"

validate_preview_url_lem_example :
    (validate_preview_url one_host (codes "https://example.com/a ") 18800 ≡ inr example_com) ↔ (
      (is_nil (trim (codes "https://example.com/a ")) ≡ false)
      × (one_host.parse (trim (codes "https://example.com/a ")) ≡ some example_com)
      × Safe one_host 18800 example_com)
validate_preview_url_lem_example =
    validate_preview_url_lem one_host (codes "https://example.com/a ") 18800 example_com
