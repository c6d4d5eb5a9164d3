-- ===== src/TwigFile.antt =====
-- datatree/twigmtfile.go: the Merkle trees of full twigs, one behind the other in an HPFile.
pub mod Operations
pub mod Written
