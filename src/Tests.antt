-- ===== src/Tests.antt =====
-- The theorems at concrete inputs, and tests of the definitions.
mod TbusTests
mod StreamTests
mod TimerTests
mod HashTests
mod MempoolTests
mod ConnectionTests
mod ResponseTests
mod TappTests
mod TlogTests
