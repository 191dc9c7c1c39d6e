-- ===== src/Validation/Examples.antt =====
-- The theorems on the validation at concrete texts.
use tldr_tv.Prelude.{refl}
use tldr_tv.Prelude.Text.{codes}
use tldr_tv.Validation.{validate_email, valid_local_part, valid_domain_label}
use tldr_tv.Validation.Email.{Address, validate_email-Address}

validate_email-Address_example : Address (codes "ann@example.com")
unfolding validate_email valid_local_part valid_domain_label
validate_email-Address_example = validate_email-Address (codes "ann@example.com") refl
