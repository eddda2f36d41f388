-- ===== src/Commands/Buffers.antt =====
-- driver/vgate.c: replies stay in the buffer of the request.
use fdlvling.Base.{
  ℕ, zero, suc, ◌+◌, ◌%◌, ◌^◌, ◌≤◌, ◌≡◌, refl, ap, Bool, true, false, not, Option, none, some, List,
  [], ◌∷◌, arith, min, ltb, leb, if◌then◌else◌, length, take,
}
use fdlvling.Commands.{
  Buffer, Address, refused, allowed, mapped, direction_fits, system_address,
  get_data_system_address, Reply, failed, replied, reply_at, mode_sense_data, mode_sense_reply,
  execute_mode_sense,
}

-- The address of `len` bytes inside the memory that the MDL describes, whose system address is known.
pub record Inside (b : Buffer) (len a : ℕ) : Type 0 where
  pub base : ℕ
  pub known : b.mdl_system ≡ some base
  pub from : base ≤ a
  pub to : a + len ≤ base + b.mdl_bytes
  pub fits : len ≤ b.transfer_length

abbrev pub AddressInside : Buffer → ℕ → Address → Type 0
AddressInside b len refused = Unit {0}
AddressInside b len allowed = ⊥
AddressInside b len (mapped a) = Inside b len a

-- The bytes that a command puts in memory lie inside the memory of the request.
abbrev pub ReplyInside : Buffer → Reply → Type 0
ReplyInside b failed = Unit {0}
ReplyInside b (replied a bytes) = Inside b (length bytes) a

choose-address :
    (X : Address → Type 0) (t : Bool) (x y : Address)
    → (t ≡ true → X x)
    → (t ≡ false → X y)
    → X (if t then x else y)
choose-address X true x y p q = p refl
choose-address X false x y p q = q refl

address-inside :
    (b : Buffer) (len : ℕ) (o : Option ℕ)
    → b.mdl_system ≡ o
    → len ≤ b.transfer_length
    → b.mdl_start ≤ b.data_buffer
    → b.data_buffer + len ≤ b.mdl_start + b.mdl_bytes
    → AddressInside b len (system_address b o)
unfolding system_address
address-inside b len none e fits lo hi = tt
address-inside b len (some base) e fits lo hi = record {
  base = base;
  known = e;
  from = omega arith;
  to = omega arith;
  fits = fits;
}

get_data_system_address-inside :
    (b : Buffer) (len : ℕ) → AddressInside b len (get_data_system_address b len false)
unfolding get_data_system_address
get_data_system_address-inside b len =
    choose-address (AddressInside b len) (not b.has_mdl) _ _ (λ _. tt)
      (λ _.
        choose-address (AddressInside b len) b.has_next _ _ (λ _. tt)
          (λ _.
            choose-address (AddressInside b len) (not (direction_fits b)) _ _ (λ _. tt)
              (λ _.
                choose-address (AddressInside b len) (ltb b.transfer_length len) _ _ (λ _. tt)
                  (λ fits.
                    choose-address (AddressInside b len) (not (leb b.mdl_start b.data_buffer)) _ _
                      (λ _. tt)
                      (λ lo.
                        choose-address (AddressInside b len)
                          (not (leb (b.data_buffer + len) (b.mdl_start + b.mdl_bytes))) _ _
                          (λ _. tt)
                          (λ hi.
                            address-inside b len b.mdl_system refl (ground arith) (ground arith)
                              (ground arith)))))))

reply_at-inside :
    (b : Buffer) (bytes : List ℕ) (a : Address)
    → AddressInside b (length bytes) a
    → ReplyInside b (reply_at a bytes)
unfolding reply_at
reply_at-inside b bytes refused h = tt
reply_at-inside b bytes allowed h = tt
reply_at-inside b bytes (mapped a) h = h

length-take : (n : ℕ) (xs : List ℕ) → n ≤ length xs → length (take n xs) ≡ n
length-take zero xs h = refl
length-take (suc n) [] h = absurd (omega arith)
length-take (suc n) (x ∷ xs) h = ap suc (length-take n xs (omega arith))

mode_sense_reply-inside :
    (b : Buffer) (room : ℕ) (o : Option (List ℕ)) → ReplyInside b (mode_sense_reply b room o)
unfolding mode_sense_reply
mode_sense_reply-inside b room none = tt
mode_sense_reply-inside b room (some bytes) =
    let len : ℕ = min (min (length bytes) b.transfer_length) room in
    let e : length (take len bytes) ≡ len = length-take len bytes (ground arith) in
    reply_at-inside b (take len bytes) (get_data_system_address b len false)
      (rw e (get_data_system_address-inside b len))

-- MODE SENSE, whatever its page and the room that it names, puts no byte outside the memory that the
-- MDL of the request describes, and no more bytes than the transfer length of the SRB.
pub execute_mode_sense-inside :
    (b : Buffer) (cdb2 cdb4 : ℕ) → ReplyInside b (execute_mode_sense b cdb2 cdb4)
unfolding execute_mode_sense
execute_mode_sense-inside b cdb2 cdb4 =
    mode_sense_reply-inside b cdb4 (mode_sense_data (cdb2 % 2 ^ 6))
