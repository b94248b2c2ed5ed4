-- ===== src/Slashing/Steady.antt =====
-- Each call on the slashing manager of src/slashing.rs keeps what a validator has to serve.
use silver_consensus.Base.Dict.{Dict}
