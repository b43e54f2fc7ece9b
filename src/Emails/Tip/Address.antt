-- ===== src/Emails/Tip/Address.antt =====
-- To whom an email of src/modules/notifications/email.service.ts goes.
use novatip_backend.Prelude.{
  ◌≡◌, String, true, ◌&&◌, Option, none, some, is_some, str_eq, Bool-cases, inl, inr, arith,
}
use novatip_backend.Store.{Creator}
use novatip_backend.Emails.Tip.{usable_email, address_of}

-- the creator wants emails, has verified the address, and it is this one
pub record IsReachable (creator : Creator) (email : String) : Type 0 where
  pub enabled : creator.email_enabled ≡ true
  pub verified : is_some creator.email_verified_at ≡ true
  pub address : creator.email ≡ some email

usable_email-lem :
    (o : Option String) (email : String) → usable_email o ≡ some email → o ≡ some email
usable_email-lem none email h = h
usable_email-lem (some e) email h = elim (Bool-cases (str_eq e "")) [
  | inl empty ↦ elim (nothing (rw empty at h)) [ ]
  | inr full ↦ rw full at h
]
  where
    nothing : none ≡ some email → ⊥
    nothing k = cc

pub address_of-IsReachable :
    (creator : Creator) (email : String)
    → address_of creator ≡ some email
    → IsReachable creator email
unfolding address_of
address_of-IsReachable creator email h =
    elim (Bool-cases (creator.email_enabled && is_some creator.email_verified_at)) [
      | inr off ↦ elim (nothing (rw off at h)) [ ]
      | inl on ↦ record {
        enabled = ground (arith, on);
        verified = ground (arith, on);
        address = usable_email-lem creator.email email (rw on at h);
      }
    ]
  where
    nothing : none ≡ some email → ⊥
    nothing k = cc
