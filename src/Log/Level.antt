-- ===== src/Log/Level.antt =====
-- `LogLevel::Level`, as the number that its values have.
use custom_net_framework.Prelude.{
  ℕ, ◌≡◌, if◌then◌else◌, ◌==◌, leb, Bytes, codes, ◌===◌, refl, arith, zero, suc,
}

abbrev pub Level : Type 0
Level = ℕ

abbrev pub unknow : Level
unknow = 0

abbrev pub debug : Level
debug = 1

abbrev pub info : Level
info = 2

abbrev pub warn : Level
warn = 3

abbrev pub error : Level
error = 4

abbrev pub fatal : Level
fatal = 5

-- `LogLevel::ToString`.
unfoldable pub to_string : Level → Bytes
to_string level =
    if level == debug
    then codes "DEBUG"
    else if level == info
    then codes "INFO"
    else if level == warn
    then codes "WARN"
    else if level == error
    then codes "ERROR"
    else if level == fatal
    then codes "FATAL"
    else codes "UNKNOW"

-- `LogLevel::FromString`.
unfoldable pub from_string : Bytes → Level
from_string str =
    if str === codes "debug"
    then debug
    else if str === codes "info"
    then info
    else if str === codes "warn"
    then warn
    else if str === codes "error"
    then error
    else if str === codes "fatal"
    then fatal
    else if str === codes "DEBUG"
    then debug
    else if str === codes "INFO"
    then info
    else if str === codes "WARN"
    then warn
    else if str === codes "ERROR"
    then error
    else if str === codes "FATAL"
    then fatal
    else unknow

-- A level that is printed is read back; a number that is no level is read back as UNKNOW.
pub from_string-to_string :
    (level : Level) → from_string (to_string level) ≡ (if leb level fatal then level else unknow)
unfolding from_string to_string ◌===◌
from_string-to_string zero = refl
from_string-to_string (suc zero) = refl
from_string-to_string (suc (suc zero)) = refl
from_string-to_string (suc (suc (suc zero))) = refl
from_string-to_string (suc (suc (suc (suc zero)))) = refl
from_string-to_string (suc (suc (suc (suc (suc zero))))) = refl
from_string-to_string (suc (suc (suc (suc (suc (suc n)))))) = ground arith
