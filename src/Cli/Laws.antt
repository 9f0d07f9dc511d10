-- ===== src/Cli/Laws.antt =====
-- cli.rs: what the checks let through.
use http_dragonfly.Prelude.{
  ℕ, zero, suc, ◌≤◌, String, ◌≡◌, ◌↔◌, ◌≢◌, true, Option, none, some, is_some, eq_iff, arith, ◌⊎◌,
}
use http_dragonfly.Prelude.Text.{trim, is_empty_str_iff}
use http_dragonfly.Prelude.Decimal.{decimal, parse_unsigned}
use http_dragonfly.Prelude.Decimal.Laws.{parse_unsigned-decimal, parse_unsigned-le}
use http_dragonfly.Platform.{Platform}
use http_dragonfly.Cli.{accepted, checked_port, parse_health_check_port, parse_env_mask}

checked_port_iff :
    (text : String) (o : Option ℕ) (n : ℕ)
    → (checked_port text o ≡ accepted n) ↔ ((o ≡ some n) × (1 ≤ n))
checked_port_iff text none n = (λ e. cc, λ h. cc h.0)
checked_port_iff text (some zero) n = ground arith
checked_port_iff text (some (suc m)) n = ground arith

-- A text is accepted as a port exactly if it is read as a number of 16 bits and is not 0.
pub parse_health_check_port_iff :
    (text : String) (n : ℕ)
    → (parse_health_check_port text ≡ accepted n)
      ↔ ((parse_unsigned 65535 text ≡ some n) × (1 ≤ n) × (n ≤ 65535))
unfolding parse_health_check_port
parse_health_check_port_iff text n =
    ground
      (arith, checked_port_iff text (parse_unsigned 65535 text) n, parse_unsigned-le 65535 text n)

-- The decimal text of a number from 1 to 65535 is accepted as this port.
pub parse_health_check_port-decimal :
    (n : ℕ) → 1 ≤ n → n ≤ 65535 → parse_health_check_port (decimal n) ≡ accepted n
parse_health_check_port-decimal n h k =
    (parse_health_check_port_iff (decimal n) n).1 (parse_unsigned-decimal 65535 n k, h, k)

-- A mask is accepted exactly if, trimmed, it is empty or `*` and becomes the mask of everything, or
-- it is neither of them, is a regex, and is kept without the white space around it.
pub parse_env_mask_iff :
    {M F J : Type 0} (p : Platform M F J) (mask kept : String)
    → (parse_env_mask p mask ≡ accepted kept) ↔ (
        (((trim mask ≡ "") ⊎ (trim mask ≡ "*")) × (kept ≡ ".+"))
        ⊎ ((trim mask ≢ "")
            × (trim mask ≢ "*")
            × (kept ≡ trim mask)
            × (is_some (p.regex (trim mask)) ≡ true)))
unfolding parse_env_mask
parse_env_mask_iff p mask kept =
    ground (arith, is_empty_str_iff (trim mask), eq_iff (trim mask) "*")
