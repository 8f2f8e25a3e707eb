-- ===== src/Rabbitmq/Stop.antt =====
-- Stopping the service (`onModuleDestroy`). Whether amqplib closes the channel and the connection is an
-- argument.
use nest_js_ecomm_rd.Base.{
  ◌≡◌, Bool, true, false, not, ◌||◌, ◌&&◌, List, [], ◌∷◌, ◌++◌, if◌then◌else◌, arith,
}

pub data Closing : Type 0 where
  channel connection : Closing

-- What is closed, tried or done, and whether the method throws.
pub record Stopped : Type 0 where
  pub closed : List Closing
  pub threw : Bool

-- The fields of the service that are not null.
pub record Held : Type 0 where
  pub channel : Bool
  pub connection : Bool

-- An error of `finally` takes the place of that of `try`.
unfoldable pub on_module_destroy : (closes : Closing → Bool) → Held → Stopped
on_module_destroy closes held = record {
  closed =
      (if held.channel then Closing.channel ∷ [] else [])
      ++ (if held.connection then Closing.connection ∷ [] else []);
  threw =
      held.channel && not (closes Closing.channel)
      || held.connection && not (closes Closing.connection);
}

abbrev tries : List Closing → Bool
tries [] = false
tries (Closing.connection ∷ rest) = true
tries (Closing.channel ∷ rest) = tries rest

-- The connection is closed whenever there is one, also where the channel does not close.
connection_closed :
    (closes : Closing → Bool) (held : Held)
    → tries (on_module_destroy closes held).closed ≡ held.connection
unfolding on_module_destroy
connection_closed closes held = ground arith
