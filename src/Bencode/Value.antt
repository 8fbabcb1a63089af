-- ===== src/Bencode/Value.antt =====
-- BencodeValue of src/aiobt/bencode.py. `Items` and `Fields` are the lists inside a list and a
-- dict; the fields of a dict stand in the order of insertion.
use aiobt.Python.Bytes.{Bytes}
use aiobt.Python.Decimal.{ℤ}

mutual
  pub data Value : Type 0 where
    int : ℤ → Value
    bytes : Bytes → Value
    list : Items → Value
    dict : Fields → Value

  pub data Fields : Type 0 where
    no_fields : Fields
    field : Bytes → Value → Fields → Fields

  pub data Items : Type 0 where
    no_items : Items
    item : Value → Items → Items
