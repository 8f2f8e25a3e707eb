-- ===== src/Scripts/Tests.antt =====
-- Command lines of the script, and what it does with them.
use nest_js_ecomm_rd.Base.{
  String, ◌≡◌, refl, true, none, some, List, [], ◌∷◌, nan, decimal, empty_map,
}
use nest_js_ecomm_rd.Scripts.Args.{read_args, parse_int, command_line}
use nest_js_ecomm_rd.Scripts.Check.{after_equals}
use nest_js_ecomm_rd.Scripts.Publish.{Broker, Surroundings, main, publish_order}

abbrev broker : Broker
broker = record { connects = true; opens_channel = true; declares = true; closes_channel = true }

abbrev env : Surroundings
env = record { uuid = "m1"; now = "1970-01-01T00:00:00.000Z"; rabbitmq_url = none }

abbrev pairs : List (String × String)
pairs = ("orderId", "o1") ∷ ("attempt", "2") ∷ ("orderId", "o2") ∷ []

-- A key without a value is `true`, whatever follows; words that are neither are skipped.
flags :
    read_args ("x" ∷ "--orderId" ∷ "--attempt" ∷ "1" ∷ "y" ∷ []) empty_map "orderId" ≡ some "true"
unfolding read_args
flags = refl

exits_well : (main broker env (command_line pairs)).code ≡ 0
unfolding main publish_order read_args parse_int
exits_well = refl

negative_attempt : parse_int " -12abc" ≡ decimal true 12 0
unfolding parse_int
negative_attempt = refl

no_attempt : parse_int "x1" ≡ nan
unfolding parse_int
no_attempt = refl

-- A value ends at its second `=`.
cut_short : after_equals "url=http://localhost/?room=1" ≡ some "http://localhost/?room"
cut_short = refl
