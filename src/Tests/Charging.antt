-- ===== src/Tests/Charging.antt =====
-- The theorem on numerals, at a concrete value.
use grok_go.Base.{◌≡◌, some, arith}
use grok_go.Base.Text.{read_unsigned}
use grok_go.Accounts.Message.{itoa}
use grok_go.Accounts.Message.Decimal.{read_unsigned-itoa}

read_unsigned-itoa_example : read_unsigned (itoa 429) ≡ some 429
read_unsigned-itoa_example = read_unsigned-itoa 429 (omega arith)
