-- ===== src/Codec/Series.antt =====
-- A series of values that is read by one call: the variadic read_into of volt_net/include/volt/net/
-- serialization/serialization_ext.hpp.
use volt_net.Common.{List, [], ◌∷◌, ◌++◌, map, append_assoc}
use volt_net.Defs.{Message}
use volt_net.Serialize.Escaping.{escape, escape-append}
use volt_net.Deserialize.{Slot, read_into_series}
use volt_net.Codec.{Transfers, Codec}

-- A value of a type that has a codec.
pub record Item : Type 1 where
  pub T : Type 0
  pub codec : Codec T
  pub value : T
  pub valid : codec.IsValid value

-- The values are written by one call of write_into after the other.
unfoldable pub write_items : List Item → Message → Message
write_items [] msg = msg
write_items (i ∷ is) msg = write_items is (i.codec.write i.value msg)

-- A fresh object for an item, and one that holds the item's value.
abbrev pub fresh_slot : Item → Slot
fresh_slot i = record { T = i.T; value = i.codec.fresh; read = i.codec.read }

abbrev pub filled_slot : Item → Slot
filled_slot i = record { T = i.T; value = i.value; read = i.codec.read }

-- Values of any types that have codecs, written one after the other and read by one call into fresh
-- objects: the call moves the iterator behind all of them, but only the first object gets its value;
-- all others keep what they held.
pub series-Transfers :
    (first : Item) (others : List Item)
    → Transfers
        (write_items (first ∷ others))
        (read_into_series (fresh_slot first) (map fresh_slot others))
        (filled_slot first, map fresh_slot others)
unfolding write_items read_into_series
series-Transfers first [] =
    let t = first.codec.transfers first.value first.valid in (t.0, t.1, λ rest. rw (t.2 rest))
series-Transfers first (next ∷ others) =
    let t = first.codec.transfers first.value first.valid in
    let u = series-Transfers next others in
    (
      t.0 ++ u.0,
      λ msg. rw (t.1 msg, u.1 (msg ++ escape t.0), append_assoc, escape-append t.0 u.0),
      λ rest. rw (append_assoc, t.2 (u.0 ++ rest), u.2 rest),
    )
