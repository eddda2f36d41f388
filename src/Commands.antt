-- ===== src/Commands.antt =====
-- driver/vgate.c: the buffer of a SCSI command, READ CAPACITY and MODE SENSE of the virtual unit.
pub mod Buffers
mod Tests
use fdlvling.Base.{
  ℕ, ◌+◌, ◌-◌, ◌*◌, ◌/◌, ◌%◌, ◌^◌, Bool, true, false, not, ◌&&◌, ◌||◌, Option, none, some, List, [],
  ◌∷◌, ◌++◌, min, sub32, mul32, ltb, leb, ◌==◌, if◌then◌else◌, length, take,
}

-- SCSIOP_READ, SCSIOP_WRITE, SCSIOP_READ_CAPACITY, SCSIOP_MODE_SENSE.
abbrev pub op_read : ℕ
op_read = 0x28

abbrev pub op_write : ℕ
op_write = 0x2a

abbrev pub op_read_capacity : ℕ
op_read_capacity = 0x25

abbrev pub op_mode_sense : ℕ
op_mode_sense = 0x1a

-- What GetDataSystemAddress reads of the request: whether the IRP has an MDL, and more than one,
-- the fields of the SRB, the range of the MDL, and the answer of MmGetSystemAddressForMdlSafe.
pub record Buffer : Type 0 where
  pub has_mdl : Bool
  pub has_next : Bool
  pub op : ℕ
  pub data_in : Bool
  pub data_out : Bool
  pub transfer_length : ℕ
  pub data_buffer : ℕ
  pub mdl_start : ℕ
  pub mdl_bytes : ℕ
  pub mdl_system : Option ℕ

-- The answer: FALSE, TRUE for a mere check, or TRUE with DataSystemAddress set.
pub data Address : Type 0 where
  refused : Address
  allowed : Address
  mapped : ℕ → Address

-- The switch over Cdb[0].
pub direction_fits : Buffer → Bool
direction_fits b =
    if (b.op == op_read) || ((b.op == op_read_capacity) || (b.op == op_mode_sense))
    then b.data_in
    else if b.op == op_write
    then b.data_out
    else false

-- `Thread->DataSystemAddress = MdlSystemAddress + (SrbDataBuffer - MdlVirtualAddress)`.
pub system_address : Buffer → Option ℕ → Address
system_address b none = refused
system_address b (some base) = mapped (base + (b.data_buffer - b.mdl_start))

-- GetDataSystemAddress.
pub get_data_system_address : Buffer → ℕ → Bool → Address
unfolding direction_fits system_address
get_data_system_address b len check_only =
    if not b.has_mdl
    then refused
    else if b.has_next
    then refused
    else if not (direction_fits b)
    then refused
    else if ltb b.transfer_length len
    then refused
    else if not (leb b.mdl_start b.data_buffer)
    then refused
    else if not (leb (b.data_buffer + len) (b.mdl_start + b.mdl_bytes))
    then refused
    else if check_only
    then allowed
    else system_address b b.mdl_system

-- RtlUlongByteSwap as the bytes that it puts in memory.
pub big_endian : ℕ → List ℕ
big_endian n = n / 2 ^ 24 % 2 ^ 8 ∷ n / 2 ^ 16 % 2 ^ 8 ∷ n / 2 ^ 8 % 2 ^ 8 ∷ n % 2 ^ 8 ∷ []

-- How a command ends: in error, or with bytes put at an address.
pub data Reply : Type 0 where
  failed : Reply
  replied : ℕ → List ℕ → Reply

-- The bytes go to DataSystemAddress, where GetDataSystemAddress with CheckOnly FALSE has set it.
pub reply_at : Address → List ℕ → Reply
reply_at refused bytes = failed
reply_at allowed bytes = failed
reply_at (mapped a) bytes = replied a bytes

-- ExecuteReadCapacity; `cdb1` and `cdb8` are Cdb[1] and Cdb[8].
pub execute_read_capacity : Buffer → ℕ → ℕ → ℕ → Reply
unfolding get_data_system_address reply_at big_endian
execute_read_capacity b size_of_map cdb1 cdb8 =
    if not (cdb1 % 2 == 0)
    then failed
    else if not (cdb1 / 32 == 0)
    then failed
    else if not (cdb8 % 2 == 0)
    then failed
    else reply_at (get_data_system_address b 8 false)
        (big_endian (sub32 (mul32 size_of_map 8) 1) ++ big_endian 512)

-- ModeSenseData08, ModeSenseData1c and ModeSenseData3f: the header, then pages 08, 1c, or both.
abbrev pub page_08 : List ℕ
page_08 =
    0x08 ∷ 0x12 ∷ 0x05 ∷ 0 ∷ 0 ∷ 0 ∷ 0 ∷ 0 ∷ 0 ∷ 0 ∷ 0 ∷ 0 ∷ 0x60 ∷ 0 ∷ 0 ∷ 0 ∷ 0 ∷ 0 ∷ 0 ∷ 0 ∷ []

abbrev pub page_1c : List ℕ
page_1c = 0x1c ∷ 0x0a ∷ 0x08 ∷ 0 ∷ 0 ∷ 0 ∷ 0 ∷ 0 ∷ 0 ∷ 0 ∷ 0 ∷ 0 ∷ []

-- The switch over Cdb[2] & 0x3f.
pub mode_sense_data : ℕ → Option (List ℕ)
mode_sense_data page =
    if page == 0x3f
    then some (0x23 ∷ 0 ∷ 0 ∷ 0 ∷ (page_08 ++ page_1c))
    else if page == 0x08
    then some (0x17 ∷ 0 ∷ 0 ∷ 0 ∷ page_08)
    else if page == 0x1c
    then some (0x0f ∷ 0 ∷ 0 ∷ 0 ∷ page_1c)
    else none

-- What is copied of the data; `room` is Cdb[4].
pub mode_sense_reply : Buffer → ℕ → Option (List ℕ) → Reply
unfolding get_data_system_address reply_at
mode_sense_reply b room none = failed
mode_sense_reply b room (some bytes) =
    let len = min (min (length bytes) b.transfer_length) room in
    reply_at (get_data_system_address b len false) (take len bytes)

-- ExecuteModeSense; `cdb2` and `cdb4` are Cdb[2] and Cdb[4].
pub execute_mode_sense : Buffer → ℕ → ℕ → Reply
unfolding mode_sense_data mode_sense_reply
execute_mode_sense b cdb2 cdb4 = mode_sense_reply b cdb4 (mode_sense_data (cdb2 % 2 ^ 6))
