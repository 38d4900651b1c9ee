-- ===== src/Overloads/Objects.antt =====
-- Every type of the overload set of volt_net/include/volt/net/serialization/serialization_ext.hpp but
-- float keeps the promise of the codec.
use volt_net.Common.{ℕ, ◌^◌, ◌<◌, ◌≡◌, subst, true, List, [], length, replicate, All}
use volt_net.Common.Int.{IsSigned}
use volt_net.Endian.{Host, little}
use volt_net.Deserialize.{read_into_std_array}
use volt_net.Codec.{Transfers, Codec}
use volt_net.Codec.Scalars.{
  uint8-Transfers, uint16-Transfers, uint32-Transfers, uint64-Transfers, char-Transfers,
  int8-Transfers, int16-Transfers, int32-Transfers, int64-Transfers, bool-Transfers,
  double-Transfers,
}
use volt_net.Codec.Containers.{
  string-Transfers, vector-Transfers, std_array-Transfers, pair-Transfers,
}
use volt_net.Overloads.{
  Plain, char, int8, int16, int32, int64, uint8, uint16, uint32, uint64, bool, string, float,
  double, PlainValue, write_plain, read_plain, fresh_plain, Element, plain, vector, array,
  ElementValue, write_element, read_element, fresh_element, Object, element, pair, Value,
  write_object, read_object, fresh_object,
}

-- The values of the types that can be read back. Those of float cannot.
abbrev pub IsPlain : (p : Plain) → PlainValue p → Type 0
IsPlain char v = IsSigned (2 ^ 7) v
IsPlain int8 v = IsSigned (2 ^ 7) v
IsPlain int16 v = IsSigned (2 ^ 15) v
IsPlain int32 v = IsSigned (2 ^ 31) v
IsPlain int64 v = IsSigned (2 ^ 63) v
IsPlain uint8 v = v < 2 ^ 8
IsPlain uint16 v = v < 2 ^ 16
IsPlain uint32 v = v < 2 ^ 32
IsPlain uint64 v = v < 2 ^ 64
IsPlain bool v = Unit {0}
IsPlain string v = (length v < 2 ^ 32) × All (IsSigned (2 ^ 7)) v
IsPlain float v = ⊥
IsPlain double v = v < 2 ^ 64

abbrev pub IsElement : (e : Element) → ElementValue e → Type 0
IsElement (plain p) v = IsPlain p v
IsElement (vector p) v = (length v < 2 ^ 32) × All (IsPlain p) v
IsElement (array n e) v = (length v ≡ n) × All (IsElement e) v

abbrev pub IsObject : (o : Object) → Value o → Type 0
IsObject (element e) v = IsElement e v
IsObject (pair p) v = IsPlain p v.0 × IsPlain p v.1

-- Two machines between which a double can be sent, the second of them little endian.
pub record Peers (w r : Host) : Type 0 where
  pub reader : r.layout ≡ little
  pub from : w.double_iec559 ≡ true
  pub to : r.double_iec559 ≡ true

module _ (w r : Host) (peers : Peers w r) (beyond : List ℕ) (junk : ℕ) where
  plain-Transfers :
      (p : Plain) (v : PlainValue p)
      → IsPlain p v
      → Transfers (write_plain w beyond p v) (read_plain r junk p (fresh_plain p)) v
  unfolding write_plain read_plain
  plain-Transfers char v h = char-Transfers w r peers.reader v _ h
  plain-Transfers int8 v h = int8-Transfers w r peers.reader v _ h
  plain-Transfers int16 v h = int16-Transfers w r peers.reader v _ h
  plain-Transfers int32 v h = int32-Transfers w r peers.reader v _ h
  plain-Transfers int64 v h = int64-Transfers w r peers.reader v _ h
  plain-Transfers uint8 v h = uint8-Transfers w r peers.reader v _ h
  plain-Transfers uint16 v h = uint16-Transfers w r peers.reader v _ h
  plain-Transfers uint32 v h = uint32-Transfers w r peers.reader v _ h
  plain-Transfers uint64 v h = uint64-Transfers w r peers.reader v _ h
  plain-Transfers bool v h = bool-Transfers w r peers.reader v junk _
  plain-Transfers string v h = string-Transfers w r peers.reader v [] junk h.0 h.1
  plain-Transfers float v h = absurd h
  plain-Transfers double v h = double-Transfers w r peers.reader v _ peers.from peers.to h

  abbrev plain_codec : (p : Plain) → Codec (PlainValue p)
  plain_codec p = record {
    write = write_plain w beyond p;
    read = read_plain r junk p;
    fresh = fresh_plain p;
    IsValid = IsPlain p;
    transfers = plain-Transfers p;
  }

  element-Transfers :
      (e : Element) (v : ElementValue e)
      → IsElement e v
      → Transfers (write_element w beyond e v) (read_element r junk e (fresh_element e)) v
  unfolding write_element read_element fresh_element
  element-Transfers (plain p) v h = plain-Transfers p v h
  element-Transfers (vector p) v h =
      vector-Transfers (plain_codec p) w r peers.reader v [] junk h.0 h.1
  element-Transfers (array n e) v h =
      subst
        (λ k.
          Transfers (write_element w beyond (array n e) v)
            (read_into_std_array (read_element r junk e) (replicate k (fresh_element e))) v)
        h.0
        (std_array-Transfers
          (record {
            write = write_element w beyond e;
            read = read_element r junk e;
            fresh = fresh_element e;
            IsValid = IsElement e;
            transfers = element-Transfers e;
          })
          v h.1)

  pub object-Transfers :
      (o : Object) (v : Value o)
      → IsObject o v
      → Transfers (write_object w beyond o v) (read_object r junk o (fresh_object o)) v
  unfolding write_object read_object fresh_object
  object-Transfers (element e) v h = element-Transfers e v h
  object-Transfers (pair p) v h = pair-Transfers (plain_codec p) v h.0 h.1
