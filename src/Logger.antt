-- ===== src/Logger.antt =====
-- The logger: `Logger` of yagi/include/logger.hh and `IdaLogger::print` of yagi/src/idalogger.cc.
pub mod Lines
use yagi.Common.{List, [], ◌∷◌, ◌++◌, Bytes, codes}
use yagi.Plugin.View.{c_str}

-- The loop over the message and the parameters.
pub values : List Bytes → Bytes
values [] = []
values (val ∷ vals) = codes " " ++ val ++ values vals

-- The end of the line is `std::endl`.
pub format : Bytes → Bytes → List Bytes → Bytes
unfolding values
format level message parameters =
    codes "[Yagi] " ++ level ++ codes " : " ++ values (message ∷ parameters) ++ 10 ∷ []

-- `msg` is IDA's: what it prints for a format, where it is given no arguments. The output window is
-- the text in it.
module _ (msg : Bytes → Bytes) where
  pub print : Bytes → Bytes → Bytes
  print message window = window ++ msg (c_str message)

  pub error : Bytes → List Bytes → Bytes → Bytes
  unfolding format print
  error message parameters window = print (format (codes "ERROR") message parameters) window

  pub info : Bytes → List Bytes → Bytes → Bytes
  unfolding format print
  info message parameters window = print (format (codes "INFO") message parameters) window
