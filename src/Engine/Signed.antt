-- ===== src/Engine/Signed.antt =====
-- What a signature covers: the message of an order tells its signed fields apart.
use nowa_zk.Base.{◌≢◌, All}
use nowa_zk.Base.Bytes.{Bytes}

abbrev NoColon : Bytes → Type 0
NoColon = All (λ c. c ≢ b':')
