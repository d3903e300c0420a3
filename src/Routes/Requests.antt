-- ===== src/Routes/Requests.antt =====
-- The bodies of the requests, with the checks for missing properties that the handlers begin with.
-- An id and a count are numbers or missing; other properties hold any JSON.
use scale_out_distributed_le.Common.{ℕ, Bool, ◌&&◌, Option, none, some, List}
use scale_out_distributed_le.Js.{
  Json, Arg, Field, undefined, arg_of, is_present, present, present_number,
}
use scale_out_distributed_le.Transactions.{Transaction}

pub record NodeBody : Type 0 where
  pub id : Field
  pub address : Arg
  pub port : Arg
  pub public_key : Arg

pub record StatusBody : Type 0 where
  pub id : Field
  pub running : Arg

-- An element of the array of a batch: null, an object with its properties, or another value, of
-- which every property reads as undefined.
pub data Element : Type 0 where
  null : Element
  object : Transaction → Element
  plain : Element

-- The transaction with the properties of an element; to read one of null is a TypeError.
abbrev pub read_element : Element → Option Transaction
read_element null = none
read_element (object tx) = some tx
read_element plain = some (record {
  from = undefined;
  to = undefined;
  amount = none;
  remainder = none;
  number_of_chains = undefined;
  number_of_blocks = undefined;
})

-- The property `transactions` of a batch: missing, null, an array, or any other value: an object, a
-- number, a text or a Boolean, none of which has a function `forEach`.
pub data BatchBody : Type 0 where
  missing : BatchBody
  no_value : BatchBody
  array : List Element → BatchBody
  not_array : BatchBody

infixl 5 ◌>>=◌
abbrev ◌>>=◌ {ℓ κ} : {A : Type ℓ} {B : Type κ} → Option A → (A → Option B) → Option B
none >>= f = none
some a >>= f = f a

-- The properties of a node's body, where none is missing.
unfoldable pub node_fields : NodeBody → Option (ℕ × Json × Json × Json)
unfolding present present_number
node_fields body = do
  id ← present_number body.id
  address ← present body.address
  port ← present body.port
  public_key ← present body.public_key
  some (id, address, port, public_key)

unfoldable pub status_fields : StatusBody → Option (ℕ × Json)
unfolding present present_number
status_fields body = do
  id ← present_number body.id
  running ← present body.running
  some (id, running)

-- Every property of a transaction's body is present.
unfoldable pub is_complete : Transaction → Bool
unfolding is_present
is_complete tx =
    is_present (arg_of tx.from)
    && is_present (arg_of tx.to)
    && is_present tx.amount
    && is_present tx.remainder
    && is_present (arg_of tx.number_of_chains)
    && is_present (arg_of tx.number_of_blocks)
