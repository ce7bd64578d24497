-- ===== src/Samples.antt =====
-- Small concrete functions in place of the browser and of the packages, which show that what is
-- assumed of them can hold; the examples of the theorems run on them.
pub mod Browser
pub mod Group
pub mod Codec
pub mod Links
