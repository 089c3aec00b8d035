-- ===== src/Kind.antt =====
-- The kinds of guests, "vm" and "lxc" in the source.
use proxora.Common.{String, Bool, true, false, Eq, ◌↔◌, ◌≡◌, arith}

pub data Kind : Type 0 where
  vm lxc : Kind

unfoldable pub kind_name : Kind → String
kind_name vm = "vm"
kind_name lxc = "lxc"

abbrev kind_beq : Kind → Kind → Bool
kind_beq vm vm = true
kind_beq lxc lxc = true
kind_beq _ _ = false

pub kind_beq_iff : (a b : Kind) → (kind_beq a b ≡ true) ↔ (a ≡ b)
kind_beq_iff a b = ground arith

instance abbrev pub kind_eq : Eq Kind
kind_eq = record { test = kind_beq; test_iff = kind_beq_iff }
