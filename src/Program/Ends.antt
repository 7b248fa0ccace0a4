-- ===== src/Program/Ends.antt =====
-- How main ends.
use bigpipe_cpp.Producer.Life.{KafkaClient, settings}
use bigpipe_cpp.Base.{◌>>◌, Option, none, some, Outcome, done, fail, null_pointer, negsuc}
use bigpipe_cpp.Folly.{Folly}
use bigpipe_cpp.Config.{Config}
use bigpipe_cpp.Program.{Main, exits}

module _ {W B : Type 0} (off_end : Outcome (Unit {0})) (connect : KafkaClient → Outcome (Unit {0}))
    (subscribe : Config W → Outcome (Unit {0})) where
  -- The first of what can go wrong with a configuration: the settings of the producer, the end of its
  -- Init, the settings of the consumer, the end of the Start of its client, and then the null pointer
  -- of the server that was never made.
  abbrev pub crash : Config W → Outcome (Main W B)
  crash conf = connect (settings conf) >> off_end >> subscribe conf >> off_end >> fail null_pointer

  -- By what becomes of the configuration.
  abbrev pub ending : Outcome (Option (Config W)) → Outcome (Main W B)
  ending (done none) = done (exits (negsuc 0))
  ending (done (some conf)) = crash conf
  ending (fail e) = fail e
