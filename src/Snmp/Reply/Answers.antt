-- ===== src/Snmp/Reply/Answers.antt =====
-- The fuel of `input` of snmp.cpp.
