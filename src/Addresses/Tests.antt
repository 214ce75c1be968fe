-- ===== src/Addresses/Tests.antt =====
-- The addresses of src/services/database.ts on concrete strings.
use orbitdb_relay.Prelude.{Text, codes, starts_with, refl}
use orbitdb_relay.Addresses.Laws.{IsDatabaseAddress}

abbrev zdpu : Text
zdpu = codes "/orbitdb/zdpu"

zdpu-IsDatabaseAddress : IsDatabaseAddress zdpu
unfolding starts_with
zdpu-IsDatabaseAddress = refl
