-- ===== src/Tests.antt =====
-- The theorems at concrete inputs, and runs of the model on the inputs of the repository's tests.
mod RangeTests
mod FreeSpaceTests
mod DataTests
mod FlashTests
mod ModelTests
mod TreeTests
mod ResourceTests
mod DataRuns
mod Uf2Tests
