-- ===== src/Js.antt =====
-- What the sources use of JavaScript: strings, decimal numbers and regular expressions.
pub mod Text
pub mod Number
pub mod Regex
pub mod Argparse
